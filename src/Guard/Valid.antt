-- ===== src/Guard/Valid.antt =====
-- The configuration that bundled-addons/examples/deprecated/50-rcon-live-guard.py runs with.
use jedi_academy_pterodactyl.Prelude.{
  if◌then◌else◌, is_empty, All, leb_ℤ, max_ℤ, ℤ, pos, negsuc, ◌≡◌, refl, ◌⊎◌, inl, inr, Bool, true,
  false, ◌||◌, [], ◌∷◌, arith,
}
use jedi_academy_pterodactyl.Text.{Text, codes, same, is_one_of, strip}
use jedi_academy_pterodactyl.Text.Equality.{same_iff}
use jedi_academy_pterodactyl.Config.{overlay, Environment, load_own_file}
use jedi_academy_pterodactyl.Scalars.{safe_int, or_default}
use jedi_academy_pterodactyl.Outcome.{
  anything, of_Holds, Outcome, raises, value_error, Holds-bind, returns, type_error, Holds,
}
use jedi_academy_pterodactyl.Python.Json.{null, Python, Json, str}
use jedi_academy_pterodactyl.Python.Dict.{get_or, Dict}
use jedi_academy_pterodactyl.Python.Convert.{int_of, str_of}
use jedi_academy_pterodactyl.Guard.Endures.{HasIp, compile_patterns-All}
use jedi_academy_pterodactyl.Guard.Config.{
  patterns_of, load_guard_config, stripped_or, guard_config_path, text_or, guard_defaults,
  say_or_svsay, Compiler, normalise_guard, GuardConfig,
}

leb_ℤ-max : (m n : ℤ) → leb_ℤ m (max_ℤ m n) ≡ true
leb_ℤ-max (pos a) (pos b) = ground arith
leb_ℤ-max (pos a) (negsuc b) = ground arith
leb_ℤ-max (negsuc a) (pos b) = ground arith
leb_ℤ-max (negsuc a) (negsuc b) = ground arith

-- The command is one that the engine shows to the players.
abbrev IsShown : Text → Type 0
IsShown command = (command ≡ codes "say") ⊎ (command ≡ codes "svsay")

say_or_svsay-IsShown : (command : Text) → IsShown (say_or_svsay command)
unfolding say_or_svsay is_one_of
say_or_svsay-IsShown command =
    branch (same command (codes "say")) refl (same command (codes "svsay")) refl
  where
    branch :
        (b : Bool)
        → same command (codes "say") ≡ b
        → (c : Bool) → same command (codes "svsay") ≡ c
        → IsShown (if b || (c || false) then command else codes "svsay")
    branch true e c f = inl ((same_iff command (codes "say")).0 e)
    branch false e true f = inr ((same_iff command (codes "svsay")).0 f)
    branch false e false f = inr refl

text_or-is_empty :
    (s default : Text) → is_empty default ≡ false → is_empty (text_or s default) ≡ false
text_or-is_empty [] default h = h
text_or-is_empty (c ∷ cs) default h = refl

-- What the worker relies on.
pub record IsValid (config : GuardConfig) : Type 0 where
  shown : IsShown config.broadcast_command
  waits_for_reply : leb_ℤ (pos 1) config.rcon_timeout_seconds ≡ true
  gap_is_time : leb_ℤ (pos 0) config.min_seconds_between_actions ≡ true
  has_host : is_empty config.rcon_host ≡ false
  has_kick : is_empty config.kick_command_template ≡ false
  names_source : All HasIp config.compiled_patterns

module _ ⦃py : Python⦄ where
  safe_int-leb :
      (v : Json) (default minimum : ℤ)
      → leb_ℤ minimum default ≡ true
      → Holds (λ n. leb_ℤ minimum n ≡ true) (safe_int v default minimum)
  unfolding safe_int
  safe_int-leb v default minimum h = from (int_of v)
    where
      from : (o : Outcome ℤ) → Holds (λ n. leb_ℤ minimum n ≡ true) (or_default o default minimum)
      from (returns n) = leb_ℤ-max minimum n
      from (raises type_error) = h
      from (raises value_error) = h
      from (raises _) = tt

  normalise_guard-IsValid :
      (compile : Compiler) (c : Dict) → Holds IsValid (normalise_guard compile c)
  unfolding normalise_guard stripped_or
  normalise_guard-IsValid compile c =
      Holds-bind {A = ℤ} {B = GuardConfig} (λ n. leb_ℤ (pos 1) n ≡ true) IsValid
        (safe_int (get_or c (codes "rcon_timeout_seconds") null) (pos 3) (pos 1)) _
        (safe_int-leb (get_or c (codes "rcon_timeout_seconds") null) (pos 3) (pos 1) refl)
        (λ timeout h.
          Holds-bind {A = ℤ} {B = GuardConfig} (λ n. leb_ℤ (pos 0) n ≡ true) IsValid
            (safe_int (get_or c (codes "min_seconds_between_actions") null) (pos 10) (pos 0)) _
            (safe_int-leb (get_or c (codes "min_seconds_between_actions") null) (pos 10) (pos 0)
              refl)
            (λ gap k. record {
              shown = say_or_svsay-IsShown (
                  py.lower
                    (strip (str_of (get_or c (codes "broadcast_command") (str (codes "svsay"))))));
              waits_for_reply = h;
              gap_is_time = k;
              has_host = text_or-is_empty _ (codes "127.0.0.1") refl;
              has_kick = text_or-is_empty _ (codes "clientkick {slot}") refl;
              names_source = compile_patterns-All compile (patterns_of c);
            }))

  -- Whatever the configuration file holds, a configuration that the guard loads broadcasts by `say`
  -- or `svsay`, waits at least one second for a reply and no negative time between actions, has a
  -- host and a kick template that are not empty, and only patterns that name the source.
  pub load_guard_config-IsValid :
      (compile : Compiler) (env : Environment) {config : GuardConfig}
      → load_guard_config compile env ≡ returns config
      → IsValid config
  unfolding load_guard_config
  load_guard_config-IsValid compile env loads =
      of_Holds IsValid
        (Holds-bind (λ _. Unit) IsValid (load_own_file env guard_config_path) _ (anything _)
          (λ loaded _. normalise_guard-IsValid compile (overlay guard_defaults loaded)))
        loads
