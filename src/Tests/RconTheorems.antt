-- ===== src/Tests/RconTheorems.antt =====
-- The theorems on the RCON texts at concrete inputs.
use jedi_academy_pterodactyl.Tests.Ascii.{ascii}
use jedi_academy_pterodactyl.Prelude.{◌≡◌, some, ◌∷◌, ◌++◌, refl, ◌⊎◌, []}
use jedi_academy_pterodactyl.Text.{Text, codes, strip}
use jedi_academy_pterodactyl.Rcon.Quote.{quote_rcon_arg}
use jedi_academy_pterodactyl.Rcon.Packet.{read_reply-header, read_reply}
use jedi_academy_pterodactyl.Rcon.Reader.{quote_rcon_arg_unique}
use jedi_academy_pterodactyl.Outcome.{returns}
use jedi_academy_pterodactyl.Python.Json.{str}
use jedi_academy_pterodactyl.Match.Sender.{rcon_text-chat, rcon_text}

abbrev hostile : Text
hostile = codes "a\" ; quit \\"

quote_rcon_arg_unique_example : (hostile ≡ hostile) × (codes " rest" ≡ codes " rest")
quote_rcon_arg_unique_example =
    quote_rcon_arg_unique hostile hostile (codes " rest") (codes " rest") refl

read_reply-header_example :
    read_reply (some (0xff ∷ 0xff ∷ 0xff ∷ 0xff ∷ codes "print\nok"))
    ≡ strip (0xfffd ∷ 0xfffd ∷ 0xfffd ∷ 0xfffd ∷ codes "print\nok")
read_reply-header_example = read_reply-header (codes "print\nok")

rcon_text_runs :
    rcon_text [] hostile (str (codes "quit"))
    ≡ returns (codes "svsay" ++ (b' ' ∷ quote_rcon_arg hostile))
unfolding rcon_text strip
rcon_text_runs = refl

rcon_text-chat_example :
    (codes "svsay" ++ (b' ' ∷ quote_rcon_arg hostile)
      ≡ codes "svsay" ++ (b' ' ∷ quote_rcon_arg hostile))
    ⊎ (codes "svsay" ++ (b' ' ∷ quote_rcon_arg hostile)
        ≡ codes "say" ++ (b' ' ∷ quote_rcon_arg hostile))
rcon_text-chat_example = rcon_text-chat [] hostile (str (codes "quit")) rcon_text_runs
