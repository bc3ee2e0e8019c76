-- ===== src/Rcon/Packet.antt =====
-- `send_rcon_command` of bundled-addons/defaults/announcer.py: the datagram that it sends, and how
-- it reads the reply.

use jedi_academy_pterodactyl.Prelude.{
  ltb, ◌==◌, if◌then◌else◌, drop, ℤ, ℕ, ◌+◌, ◌/◌, ◌%◌, ◌≡◌, Bool, Option, none, some, List, [], ◌∷◌,
  ◌++◌,
}
use jedi_academy_pterodactyl.Text.{Text, codes, between, strip, starts_with}
use jedi_academy_pterodactyl.Outcome.{Outcome, raises, value_error, returns, ◌>>=◌}
use jedi_academy_pterodactyl.Python.Json.{Python}

abbrev is_surrogate : ℕ → Bool
is_surrogate = between 0xd800 0xdfff

utf8_char : ℕ → List ℕ
utf8_char c =
    if ltb c 0x80
    then c ∷ []
    else if ltb c 0x800
    then (0xc0 + c / 64) ∷ (0x80 + c % 64) ∷ []
    else if ltb c 0x10000
    then (0xe0 + c / 4096) ∷ (0x80 + c / 64 % 64) ∷ (0x80 + c % 64) ∷ []
    else (0xf0 + c / 262144) ∷ (0x80 + c / 4096 % 64) ∷ (0x80 + c / 64 % 64) ∷ (0x80 + c % 64) ∷ []

-- `text.encode("utf-8")`, where a surrogate is a `UnicodeEncodeError`
unfoldable pub encode : Text → Outcome (List ℕ)
unfolding utf8_char
encode [] = returns []
encode (c ∷ cs) = encode cs >>= λ bytes.
    if is_surrogate c then raises value_error else returns (utf8_char c ++ bytes)

-- `b"\xff\xff\xff\xffrcon " + password + b" " + command`
unfoldable pub rcon_payload : Text → Text → Outcome (List ℕ)
unfolding encode
rcon_payload password command = encode password >>= λ p. encode command >>= λ c.
    returns (0xff ∷ 0xff ∷ 0xff ∷ 0xff ∷ (codes "rcon " ++ (p ++ (b' ' ∷ c))))

-- What the socket does with a datagram: a reply, `none` when the time is up, or an `OSError`.
abbrev pub Exchange : Type 0
Exchange = Text → ℤ → ℤ → List ℕ → Outcome (Option (List ℕ))

-- `s.lstrip(char)`
unfoldable pub lstrip_char : ℕ → Text → Text
lstrip_char x [] = []
lstrip_char x (c ∷ cs) = let rest = lstrip_char x cs in if c == x then rest else c ∷ cs

-- `decoded[6:]` behind the header "print\n"
drop_print : Text → Text
unfolding starts_with
drop_print decoded = if starts_with decoded (codes "print\n") then drop 6 decoded else decoded

module _ ⦃py : Python⦄ where
  unfoldable pub read_reply : Option (List ℕ) → Text
  unfolding lstrip_char drop_print
  read_reply none = []
  read_reply (some response) = strip (drop_print (lstrip_char 0xff (py.decode_replace response)))

  unfoldable pub send_rcon_command : Exchange → Text → ℤ → Text → ℤ → Text → Outcome Text
  unfolding rcon_payload read_reply
  send_rcon_command exchange host port password timeout command =
      rcon_payload password command >>= λ payload.
      exchange host port timeout payload >>= λ reply. returns (read_reply reply)

  -- The four 0xff bytes that begin a reply are decoded to replacement characters and stay: nothing
  -- but white space at the ends of the decoded text is taken off, also where `print` and a newline
  -- follow the header.
  pub read_reply-header :
      (bytes : List ℕ)
      → read_reply (some (0xff ∷ 0xff ∷ 0xff ∷ 0xff ∷ bytes))
        ≡ strip (0xfffd ∷ 0xfffd ∷ 0xfffd ∷ 0xfffd ∷ py.decode_replace bytes)
  unfolding read_reply
  read_reply-header bytes = simp py.decode_replace_lem
