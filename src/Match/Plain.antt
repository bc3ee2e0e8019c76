-- ===== src/Match/Plain.antt =====
-- The texts of bundled-addons/defaults/match-announcer.py: the default messages, and what `_emit`
-- makes of a line.
use jedi_academy_pterodactyl.Prelude.{
  ◌==◌, Bool-cases, length, is_empty, keep, All, length-take-le, All-take, ℕ, ◌≤◌, ◌<◌, ◌≡◌, inl,
  inr, false, not, ◌||◌, [], ◌∷◌, arith, Bool, true, ◌&&◌,
}
use jedi_academy_pterodactyl.Text.{Text, strip, is_control, codes, same}
use jedi_academy_pterodactyl.Text.Strip.{All-strip}
use jedi_academy_pterodactyl.Outcome.{index_error, returns, raises, value_error, key_error, Outcome}
use jedi_academy_pterodactyl.Python.Dict.{get}
use jedi_academy_pterodactyl.Match.Render.{Group, default_message}
use jedi_academy_pterodactyl.Match.Machine.{Sent, emitted_line, emit, sent, MatchAnnouncer}
use jedi_academy_pterodactyl.Rcon.Quote.{sanitize_text}

-- A character of the four default messages, which hold no brace.
abbrev pub NoBrace : ℕ → Type 0
NoBrace c = (c == b'{' || c == b'}') ≡ false

-- The formatting returns, or raises one of the exceptions that the addon handles.
abbrev pub Handled : Outcome Text → Type 0
Handled (returns s) = Unit
Handled (raises key_error) = Unit
Handled (raises index_error) = Unit
Handled (raises value_error) = Unit
Handled (raises e) = ⊥

abbrev pub NoControl : ℕ → Type 0
NoControl c = is_control c ≡ false

abbrev pub IsFit : Sent → Type 0
IsFit (sent line command) = (0 < length line) × (length line ≤ 140) × All NoControl line

keep-NoControl : (s : Text) → All NoControl (keep (λ c. not (is_control c)) s)
keep-NoControl [] = tt
keep-NoControl (c ∷ cs) = elim (Bool-cases (is_control c)) [
  | inl e ↦ rw e (keep-NoControl cs)
  | inr e ↦ rw e (e, keep-NoControl cs)
]

pub sanitize_text-NoControl : (s : Text) → All NoControl (sanitize_text s)
unfolding sanitize_text
sanitize_text-NoControl s = All-strip NoControl _ (keep-NoControl s)

braceless : Text → Bool
braceless [] = true
braceless (c ∷ cs) = not (c == b'{' || c == b'}') && braceless cs

braceless_sound : (s : Text) → braceless s ≡ true → All NoBrace s
unfolding braceless
braceless_sound [] h = tt
braceless_sound (c ∷ cs) h = (ground arith, braceless_sound cs (ground arith))

default_message-braceless : (key : Text) → braceless (default_message key) ≡ true
unfolding default_message get braceless
default_message-braceless key = elim (Bool-cases (same (codes "tffa_start") key)) [
  | inl a ↦ rw (a, default_message)
  | inr a ↦
      rw (a, default_message)
        (elim (Bool-cases (same (codes "tffa_end_red") key)) [
          | inl b ↦ rw (b, default_message)
          | inr b ↦
              rw (b, default_message)
                (elim (Bool-cases (same (codes "tffa_end_blue") key)) [
                  | inl c ↦ rw (c, default_message)
                  | inr c ↦
                      rw (c, default_message)
                        (elim (Bool-cases (same (codes "tffa_end_draw") key)) [
                          | inl d ↦ rw (d, default_message)
                          | inr d ↦ rw (d, default_message)
                        ])
                ])
        ])
]

pub default_message-NoBrace : (key : Text) → All NoBrace (default_message key)
default_message-NoBrace key = braceless_sound _ (default_message-braceless key)

pub length-emitted_line :
    (line : Text) → is_empty (strip line) ≡ false → 0 < length (emitted_line line)
unfolding emitted_line
length-emitted_line line h = ground arith

pub emit-IsFit :
    (line : Text) (g : Group) (m : MatchAnnouncer)
    → All NoControl line
    → All IsFit m.outbox
    → All IsFit (emit line g m).outbox
unfolding emit
emit-IsFit line g m c h = elim (Bool-cases (is_empty (strip line))) [
  | inl e ↦ rw e h
  | inr e ↦ rw e (
    (
      length-emitted_line line e,
      unfold emitted_line in length-take-le 140 (strip line),
      unfold emitted_line in All-take NoControl 140 (strip line) (All-strip NoControl line c),
    ),
    h,
  )
]

pub emit-config : (line : Text) (g : Group) (m : MatchAnnouncer) → (emit line g m).config ≡ m.config
unfolding emit
emit-config line g m = ground arith
