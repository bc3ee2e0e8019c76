-- ===== src/Chat/Recorded.antt =====
-- Which entries bundled-addons/defaults/chatlogger.py records.
use jedi_academy_pterodactyl.Prelude.{
  is_empty, ◌≡◌, false, Option, none, some, List, [], ◌∷◌, arith,
}
use jedi_academy_pterodactyl.Text.{Text, is_one_of, strip, codes}
use jedi_academy_pterodactyl.Python.Json.{Python, Fields, dict, Json}
use jedi_academy_pterodactyl.Chat.Patterns.{
  Channel, normalize_text, split_log_prefix, raw_verb_patterns, public_channel, named,
}
use jedi_academy_pterodactyl.Chat.Entry.{
  admit, ChatEntry, sender_blocklist, classify_with, with_channel, raw_entry, classify_raw_line,
  chat_entry, event_to_entry, as_text, is_type, raw_or_empty, or_empty_text, target_of,
}
use jedi_academy_pterodactyl.Text.Strip.{strip-strip}
use jedi_academy_pterodactyl.Regex.{Re, match_start}
use jedi_academy_pterodactyl.Outcome.{Holds, returns, of_Holds, Holds-bind, Holds-if, anything}
use jedi_academy_pterodactyl.Python.Dict.{field_of}

-- A sender and a message that are not empty and have no white space at their ends, and a sender
-- that is not on the blocklist.
pub record IsRecorded ⦃py : Python⦄ (e : ChatEntry) : Type 0 where
  sender_given : is_empty e.sender ≡ false
  message_given : is_empty e.message ≡ false
  sender_clean : strip e.sender ≡ e.sender
  message_clean : strip e.message ≡ e.message
  sender_admitted : is_one_of (py.lower e.sender) sender_blocklist ≡ false

abbrev AllRecorded : ⦃py : Python⦄ → Option ChatEntry → Type 0
AllRecorded none = Unit
AllRecorded (some e) = IsRecorded e

module _ ⦃py : Python⦄ where
  normalize_text-strip : (s : Text) → strip (normalize_text s) ≡ normalize_text s
  unfolding normalize_text
  normalize_text-strip s = strip-strip _

  admit-AllRecorded :
      (c : Channel) (sender message : Text) (target : Option Text)
      → strip sender ≡ sender
      → strip message ≡ message
      → AllRecorded (admit c sender message target)
  unfolding admit
  admit-AllRecorded c sender message target h k = ground arith

  classify_with-AllRecorded :
      (patterns : List (Channel × Re)) (body : Text) → AllRecorded (classify_with patterns body)
  unfolding classify_with
  classify_with-AllRecorded [] body = tt
  classify_with-AllRecorded ((c, p) ∷ rest) body =
      elim (match_start p body)
        as (λ o. AllRecorded (elim o [
          | none ↦ classify_with rest body
          | some t ↦
              admit c (normalize_text (named 1 t)) (normalize_text (named 2 t)) (target_of c t)
        ])) [
          | none ↦ classify_with-AllRecorded rest body
          | some t ↦
              admit-AllRecorded c (normalize_text (named 1 t)) (normalize_text (named 2 t))
                (target_of c t) (normalize_text-strip (named 1 t))
                (normalize_text-strip (named 2 t))
        ]

  classify_raw_line-AllRecorded : (raw : Text) → AllRecorded (classify_raw_line raw)
  unfolding classify_raw_line
  classify_raw_line-AllRecorded raw =
      ground (arith, classify_with-AllRecorded raw_verb_patterns (split_log_prefix raw))

  raw_entry-AllRecorded : (event : Fields) → Holds AllRecorded (raw_entry event)
  unfolding raw_entry
  raw_entry-AllRecorded event =
      Holds-bind (λ _. Unit) AllRecorded
        (as_text (raw_or_empty (or_empty_text (field_of event (codes "raw"))))) _ (anything _)
        (λ raw _. classify_raw_line-AllRecorded raw)

  with_channel-AllRecorded :
      (raw : Json) (o : Option ChatEntry) → AllRecorded o → Holds AllRecorded (with_channel raw o)
  unfolding with_channel
  with_channel-AllRecorded raw none h = tt
  with_channel-AllRecorded raw (some e) h =
      Holds-bind (λ _. Unit) AllRecorded (as_text raw) _ (anything _)
        (λ _ _. record {
          sender_given = h.sender_given;
          message_given = h.message_given;
          sender_clean = h.sender_clean;
          message_clean = h.message_clean;
          sender_admitted = h.sender_admitted;
        })

  chat_entry-AllRecorded : (event : Fields) → Holds AllRecorded (chat_entry event)
  unfolding chat_entry
  chat_entry-AllRecorded event =
      Holds-bind (λ _. Unit) AllRecorded (as_text (or_empty_text (field_of event (codes "name")))) _
        (anything _)
        (λ name _.
          Holds-bind (λ _. Unit) AllRecorded
            (as_text (or_empty_text (field_of event (codes "message")))) _ (anything _)
            (λ message _.
              with_channel-AllRecorded (raw_or_empty (or_empty_text (field_of event (codes "raw"))))
                _
                (admit-AllRecorded public_channel (normalize_text name) (normalize_text message)
                  none (normalize_text-strip name) (normalize_text-strip message))))

  -- An entry that the addon records, from a chat message or from a raw line, has a sender and a
  -- message that are not empty and carry no white space at their ends, and its sender is none of
  -- the blocked names.
  pub event_to_entry-IsRecorded :
      (event : Json) {e : ChatEntry} → event_to_entry event ≡ returns (some e) → IsRecorded e
  unfolding event_to_entry
  event_to_entry-IsRecorded (dict event) h =
      of_Holds AllRecorded
        (Holds-if AllRecorded _ _ (is_type (codes "chat_message") (field_of event (codes "type")))
          (chat_entry-AllRecorded event)
          (Holds-if AllRecorded _ _ (is_type (codes "raw_line") (field_of event (codes "type")))
            (raw_entry-AllRecorded event) tt))
        h
  event_to_entry-IsRecorded _ h = cc h
