-- ===== src/Guard/Permitted.antt =====
-- Which commands the enforcement of bundled-addons/examples/deprecated/50-rcon-live-guard.py sends.
use mathlib.Core.Path.{subst}
use mathlib.Core.List.{Mem, mem-cons_self, mem-cons_of_mem}
use jedi_academy_pterodactyl.Prelude.{
  if◌then◌else◌, All, ℤ, ◌≡◌, refl, ◌⊎◌, Bool, true, false, some, List, [], ◌∷◌, arith, sym, inl,
  inr, Option, none,
}
use jedi_academy_pterodactyl.Text.{Text, codes, same}
use jedi_academy_pterodactyl.Traced.{of_outcome, All-go_on, ◌>=>◌, pure}
use jedi_academy_pterodactyl.Outcome.{returns, raises, Outcome}
use jedi_academy_pterodactyl.Python.Json.{Python}
use jedi_academy_pterodactyl.Guard.Address.{bare_ip}
use jedi_academy_pterodactyl.Guard.Config.{GuardConfig}
use jedi_academy_pterodactyl.Guard.Enforce.{
  Net, broadcast_of, send_traced, kick_command, ask_status, enforce_with, punish, status_players,
  punish_found, broadcast, kick, send_logged,
}
use jedi_academy_pterodactyl.Guard.Status.{Player, find_player_slot_by_ip}
use jedi_academy_pterodactyl.Rcon.Packet.{rcon_payload}
use jedi_academy_pterodactyl.Text.Equality.{same_iff}

-- The text of a reply; a request that raised has none.
abbrev pub text_or_none : Outcome Text → Text
text_or_none (returns s) = s
text_or_none (raises e) = []

module _ ⦃py : Python⦄ where
  -- The player is listed, and the attempt came from its address.
  abbrev pub IsSource : Text → List Player → Player → Type 0
  IsSource source ps p = Mem p ps × (bare_ip p.address ≡ bare_ip source)

  -- The command is the request for the status, or the kick or the broadcast of a listed player from
  -- whose address the attempt came.
  pub IsPermitted : GuardConfig → Text → List Player → Text → Type 0
  IsPermitted config source ps c =
      (c ≡ codes "status")
      ⊎ ((p : Player) × IsSource source ps p
          × ((kick_command config p ≡ returns c) ⊎ (broadcast_of config source p ≡ returns c)))

  find-IsSource :
      (source : Text) (ps : List Player) {p : Player}
      → find_player_slot_by_ip ps source ≡ some p
      → IsSource source ps p
  unfolding find_player_slot_by_ip
  find-IsSource source (q ∷ ps) {p = p} h =
      branch (same (bare_ip q.address) (bare_ip source)) refl h (find-IsSource source ps)
    where
      branch :
          (b : Bool)
          → same (bare_ip q.address) (bare_ip source) ≡ b
          → (if b then some q else find_player_slot_by_ip ps source) ≡ some p
          → (find_player_slot_by_ip ps source ≡ some p → IsSource source ps p)
          → IsSource source (q ∷ ps) p
      branch true e now onward =
          let q_is_p : q ≡ p = cc in
          subst (IsSource source (q ∷ ps)) q_is_p (mem-cons_self, (same_iff _ _).0 e)
      branch false e later onward = let rest = onward later in (mem-cons_of_mem q rest.0, rest.1)
  find-IsSource source [] h = cc

  send_traced-All :
      (P : Text → Type 0) (net : Net) (host : Text) (port : ℤ) (password : Text) (timeout : ℤ)
      (command : Text)
      → P command
      → All P (send_traced net host port password timeout command).commands
  unfolding send_traced
  send_traced-All P net host port password timeout command h =
      All-go_on P (of_outcome (rcon_payload password command)) _ tt (λ payload _. ground (arith, h))

  send_logged-All :
      (P : Text → Type 0) (net : Net) (config : GuardConfig) (port : ℤ) (password command : Text)
      → P command
      → All P (send_logged net config port password command).commands
  unfolding send_logged
  send_logged-All P net config port password command h =
      send_traced-All P net config.rcon_host port password config.rcon_timeout_seconds command h

  punish-IsPermitted :
      (net : Net) (config : GuardConfig) (port : ℤ) (password source : Text) (ps : List Player)
      (p : Player)
      → IsSource source ps p
      → All (IsPermitted config source ps) (punish net config port password source p).commands
  unfolding punish kick broadcast IsPermitted
  punish-IsPermitted net config port password source ps p h =
      All-go_on P
        (kick net config port password p >=> (λ _. broadcast net config port password source p))
        (λ _. pure true)
        (All-go_on P (kick net config port password p) _
          (All-go_on P (of_outcome (kick_command config p)) _ tt
            (λ c e. send_logged-All P net config port password c (inr (p, h, inl e))))
          (λ _ _.
            All-go_on P (of_outcome (broadcast_of config source p)) _ tt
              (λ c e. send_logged-All P net config port password c (inr (p, h, inr e)))))
        (λ _ _. tt)
    where
      P : Text → Type 0
      P = IsPermitted config source ps

  punish_found-IsPermitted :
      (net : Net) (config : GuardConfig) (port : ℤ) (password source : Text) (ps : List Player)
      (o : Option Player)
      → find_player_slot_by_ip ps source ≡ o
      → All (IsPermitted config source ps) (punish_found net config port password source o).commands
  unfolding punish_found
  punish_found-IsPermitted net config port password source ps none e = tt
  punish_found-IsPermitted net config port password source ps (some p) e =
      punish-IsPermitted net config port password source ps p (find-IsSource source ps e)

  ask_status-IsPermitted :
      (net : Net) (config : GuardConfig) (port : ℤ) (password source : Text) (ps : List Player)
      → All (IsPermitted config source ps) (ask_status net config port password).commands
  unfolding ask_status IsPermitted
  ask_status-IsPermitted net config port password source ps =
      send_traced-All (IsPermitted config source ps) net config.rcon_host port password
        config.rcon_timeout_seconds (codes "status") (inl refl)

  -- Whatever the network answers: every command that an enforcement sends is the request for the
  -- status, or the kick or the broadcast of a player that the answer lists with the address of the
  -- attempt.
  pub enforce_with-IsPermitted :
      (net : Net) (config : GuardConfig) (source : Text) (port : ℤ) (password : Text)
      → All
          (IsPermitted config source
            (status_players (text_or_none (ask_status net config port password).outcome)))
          (enforce_with net config source port password).commands
  unfolding enforce_with
  enforce_with-IsPermitted net config source port password =
      All-go_on _ (ask_status net config port password) _
        (ask_status-IsPermitted net config port password source _)
        (λ reply e.
          subst
            (λ o.
              All (IsPermitted config source (status_players (text_or_none o)))
                (punish_found net config port password source
                  (find_player_slot_by_ip (status_players reply) source)).commands)
            (sym e)
            (punish_found-IsPermitted net config port password source (status_players reply) _
              refl))
