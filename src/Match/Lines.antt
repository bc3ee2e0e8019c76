-- ===== src/Match/Lines.antt =====
-- The lines of bundled-addons/defaults/match-announcer.py where the templates format.
use jedi_academy_pterodactyl.Prelude.{
  Bool-cases, All, ℕ, ◌≡◌, inl, inr, false, refl, Option, none, some, arith, Option-cases, ◌∙◌,
  true,
}
use jedi_academy_pterodactyl.Text.{Text}
use jedi_academy_pterodactyl.Outcome.{
  recursion_error, index_error, returns, raises, value_error, key_error, Outcome, Yields, os_error,
  Yields-bind, type_error, attribute_error, overflow_error,
}
use jedi_academy_pterodactyl.Python.Dict.{Dict}
use jedi_academy_pterodactyl.Match.Render.{
  Group, default_message, render_message, retry, attempt, template_for, format_template,
  start_group, end_group,
}
use jedi_academy_pterodactyl.Match.Machine.{
  emit, MatchAnnouncer, send_summary_and_reset, reset_match, store_scores, on_shutdown_game,
  handle_event, other_type, event_type, shutdown_game, dispatch, on_init_game, on_raw_line, raw_of,
  activate, disarm, init_game, on_match_line, EventType, Readings, raw_line, on_score,
  send_match_start, maybe_send_pending_match_start,
}
use jedi_academy_pterodactyl.Format.{format_text, format_text_of_literal}
use jedi_academy_pterodactyl.Python.Json.{Fields, Python, dict, Json}
use jedi_academy_pterodactyl.Match.Patterns.{team_score, exit_hit}
use jedi_academy_pterodactyl.Match.Plain.{
  sanitize_text-NoControl, IsFit, Handled, default_message-NoBrace, emit-IsFit, NoControl,
  emit-config,
}

module _ ⦃py : Python⦄ where
  -- Every template in use formats, or fails in a way that the addon handles.
  abbrev pub TemplatesFormat : Dict → Type 0
  TemplatesFormat config =
      (key : Text) (values : Fields) → Handled (format_text (template_for config key) values)

  -- What a handler keeps: the configuration, and lines that are fit to send.
  abbrev pub Keeps : Dict → MatchAnnouncer → Type 0
  Keeps config m = (m.config ≡ config) × All IsFit m.outbox

  emit-Keeps :
      (config : Dict) (line : Text) (g : Group) (m : MatchAnnouncer)
      → All NoControl line
      → Keeps config m
      → Keeps config (emit line g m)
  emit-Keeps config line g m c h = (emit-config line g m ∙ h.0, emit-IsFit line g m c h.1)

  retry-returns :
      (key : Text) (values : Fields) (o : Option Text)
      → (s : Text) × (retry (default_message key) values o ≡ returns s)
  unfolding retry format_template
  retry-returns key values (some rendered) = (rendered, refl)
  retry-returns key values none = (
    default_message key,
    rw (format_text_of_literal values (default_message key) (default_message-NoBrace key)) refl,
  )

  attempt-returns : (r : Outcome Text) → Handled r → (o : Option Text) × (attempt r ≡ returns o)
  unfolding attempt
  attempt-returns (returns s) h = (some s, refl)
  attempt-returns (raises key_error) h = (none, refl)
  attempt-returns (raises index_error) h = (none, refl)
  attempt-returns (raises value_error) h = (none, refl)
  attempt-returns (raises type_error) h = absurd h
  attempt-returns (raises overflow_error) h = absurd h
  attempt-returns (raises attribute_error) h = absurd h
  attempt-returns (raises os_error) h = absurd h
  attempt-returns (raises recursion_error) h = absurd h

  render_message-Yields :
      (config : Dict) (key : Text) (values : Fields)
      → Handled (format_text (template_for config key) values)
      → Yields (All NoControl) (render_message config key values)
  unfolding render_message format_template
  render_message-Yields config key values h =
      let (o, e) = attempt-returns _ h in
      let (s, r) = retry-returns key values o in rw e (rw r (sanitize_text-NoControl s))

  send_summary-Keeps :
      (config : Dict) (m : MatchAnnouncer)
      → TemplatesFormat config
      → Keeps config m
      → Yields (Keeps config) (send_summary_and_reset m)
  unfolding send_summary_and_reset reset_match
  send_summary-Keeps config m safe h = elim (Bool-cases m.summary_sent) [
    | inl e ↦ simp e h
    | inr e ↦ simp e (
        Yields-bind (All NoControl) (Keeps config) (render_message _ _ _) _
          (render_message-Yields _ _ _ (rw h.0 (safe _ _)))
          (λ line c. emit-Keeps config line end_group _ c h))
  ]

  send_match_start-Keeps :
      (config : Dict) (m : MatchAnnouncer)
      → TemplatesFormat config
      → Keeps config m
      → Yields (Keeps config) (send_match_start m)
  unfolding send_match_start
  send_match_start-Keeps config m safe h =
      Yields-bind (All NoControl) (Keeps config) (render_message _ _ _) _
        (render_message-Yields _ _ _ (rw h.0 (safe _ _)))
        (λ line c. emit-Keeps config line start_group _ c h)

  pub maybe_send-Keeps :
      (config : Dict) (now : ℕ) (m : MatchAnnouncer)
      → TemplatesFormat config
      → Keeps config m
      → Yields (Keeps config) (maybe_send_pending_match_start now m)
  unfolding maybe_send_pending_match_start
  maybe_send-Keeps config now m safe h = ground (
    arith,
    send_match_start-Keeps config
        (record m {
          pending_match_start = false;
          pending_match_start_at = none;
          match_start_sent = true;
        })
        safe h,
  )

  store_scores-Keeps :
      (config : Dict) (scores : Option ℕ × Option ℕ) (m : MatchAnnouncer)
      → Keeps config m
      → Keeps config (store_scores scores m)
  unfolding store_scores
  store_scores-Keeps config (some red, some blue) m h = h
  store_scores-Keeps config (some red, none) m h = h
  store_scores-Keeps config (none, blue) m h = h

  on_score-Keeps :
      (config : Dict) (scores : Option ℕ × Option ℕ) (m : MatchAnnouncer)
      → TemplatesFormat config
      → Keeps config m
      → Yields (Keeps config) (on_score scores m)
  unfolding on_score
  on_score-Keeps config scores m safe h = ground (
    arith,
    store_scores-Keeps config scores m h,
    send_summary-Keeps config (store_scores scores m) safe (store_scores-Keeps config scores m h),
  )

  on_match_line-Keeps :
      (config : Dict) (raw : Text) (m : MatchAnnouncer)
      → TemplatesFormat config
      → Keeps config m
      → Yields (Keeps config) (on_match_line raw m)
  unfolding on_match_line
  on_match_line-Keeps config raw m safe h = elim (Bool-cases (exit_hit raw)) [
    | inl e ↦ rw e h
    | inr e ↦ rw e (elim (Option-cases (team_score raw)) [
      | inl p ↦ rw p (ground (arith, send_summary-Keeps config m safe h))
      | inr (scores, p) ↦ rw p (on_score-Keeps config scores m safe h)
    ])
  ]

  dispatch-Keeps :
      (config : Dict) (e : EventType) (event : Fields) (t : Readings) (m : MatchAnnouncer)
      → TemplatesFormat config
      → Keeps config m
      → Yields (Keeps config) (dispatch e event t m)
  unfolding dispatch on_raw_line on_init_game on_shutdown_game disarm activate reset_match
  dispatch-Keeps config raw_line event t m safe h =
      ground (arith, on_match_line-Keeps config (raw_of event) m safe h)
  dispatch-Keeps config init_game event t m safe h = ground arith
  dispatch-Keeps config shutdown_game event t m safe h =
      ground (arith, send_summary-Keeps config m safe h)
  dispatch-Keeps config other_type event t m safe h = h

  pub handle_event-Keeps :
      (config : Dict) (event : Json) (t : Readings) (m : MatchAnnouncer)
      → TemplatesFormat config
      → Keeps config m
      → Yields (Keeps config) (handle_event event t m)
  unfolding handle_event
  handle_event-Keeps config (dict event) t m safe h =
      Yields-bind (Keeps config) (Keeps config) (dispatch (event_type event) event t m) _
        (dispatch-Keeps config (event_type event) event t m safe h)
        (λ m' h'. maybe_send-Keeps config t.pumped m' safe h')
  handle_event-Keeps config _ t m safe h = h
