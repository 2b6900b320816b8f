-- ===== src/NetAddr/Runs.antt =====
-- Runs on addresses, and the theorems at concrete ones.
use talon_rpc.Prelude.{◌≡◌, refl, ◌∷◌, ◌++◌, true, arith}
use talon_rpc.Prelude.Text.{codes, find_first_of}
use talon_rpc.Prelude.Int.{pos}
use talon_rpc.Prelude.Decimal.{to_string, atoi}
use talon_rpc.Prelude.Outcome.{ok}
use talon_rpc.NetAddr.{IpNetAddr, check_valid_text, of_text, to_text}
use talon_rpc.NetAddr.RoundTrip.{of_text-to_text, check_valid_text_lem}

abbrev home : IpNetAddr
home = record { ip = codes "127.0.0.1"; port = 8080 }

home_text : to_text home ≡ codes "127.0.0.1:8080"
unfolding to_string
home_text = refl

one_too_many : of_text (codes "h:65536") ≡ ok (record { ip = codes "h"; port = 0 })
unfolding of_text find_first_of atoi
one_too_many = refl

of_text-to_text_example : of_text (to_text home) ≡ ok home
of_text-to_text_example = of_text-to_text home (omega arith) (omega arith)

check_valid_text_lem_example :
    check_valid_text (codes "h" ++ (b':' ∷ to_string (pos 65536))) ≡ ok true
check_valid_text_lem_example =
    check_valid_text_lem (codes "h") 65536 (omega arith) (omega arith) (omega arith)
