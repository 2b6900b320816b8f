-- ===== src/NetAddr/RoundTrip.antt =====
-- An address as text and back.
use talon_rpc.Prelude.{
  ℕ, suc, ◌%◌, ◌^◌, ◌<◌, ◌≡◌, refl, sym, ap, ◌∙◌, List, [], ◌∷◌, ◌++◌, length, drop, ltb, leb,
  if◌then◌else◌, false, ◌&&◌, some, arith, take-append, drop-append, drop-drop, lt→ltb,
}
use talon_rpc.Prelude.Int.{pos}
use talon_rpc.Prelude.Text.{find_first_of-append, Without}
use talon_rpc.Prelude.Decimal.{to_string, atoi-to_string, length-to_string}
use talon_rpc.Prelude.Dict.{Dict, lookup}
use talon_rpc.Prelude.Outcome.{ok}
use talon_rpc.NetAddr.{
  IpNetAddr, check_parts, check_valid_text, of_text, to_text, is_empty, find_addr,
}

drop-colon : (s r : List ℕ) → drop (suc (length s)) (s ++ (b':' ∷ r)) ≡ r
drop-colon s r =
    sym (drop-drop 1 (length s) (suc (length s)) (s ++ (b':' ∷ r)) (omega arith))
    ∙ ap (drop 1) (drop-append (length s) s (b':' ∷ r) refl)

-- What the code reads out of a text with a number behind its first colon.
of_text-port :
    (ip : List ℕ) (n : ℕ)
    → Without b':' ip
    → n < 2 ^ 31
    → of_text (ip ++ (b':' ∷ to_string (pos n))) ≡ ok (record { ip = ip; port = n % 2 ^ 16 })
unfolding of_text
of_text-port ip n h fits =
    rw
      (
        find_first_of-append b':' ip (to_string (pos n)) h,
        of_text,
        drop-colon ip (to_string (pos n)),
        atoi-to_string (pos n) (lt→ltb _ _ fits),
      )
      (ap (λ t. ok (record { ip = t; port = n % 2 ^ 16 })) (take-append (length ip) ip _ refl))

-- An address that is printed by toString is read back by the constructor, if no colon is in its ip.
pub of_text-to_text :
    (a : IpNetAddr) → Without b':' a.ip → a.port < 2 ^ 16 → of_text (to_text a) ≡ ok a
of_text-to_text a h fits =
    of_text-port a.ip a.port h (omega arith) ∙ ap (λ t. ok (record a { port = t })) (omega arith)

is_empty-length : (s : List ℕ) → 0 < length s → is_empty s ≡ false
is_empty-length [] h = elim h [ ]
is_empty-length (c ∷ s) h = refl

check_parts_lem :
    (ip : List ℕ) (n : ℕ)
    → 0 < length ip
    → n < 2 ^ 31
    → check_parts ip (to_string (pos n)) ≡ ok (ltb 0 n && leb n 65536)
unfolding check_parts
check_parts_lem ip n h fits =
    rw
      (
        is_empty-length ip h,
        is_empty-length (to_string (pos n)) (length-to_string n),
        atoi-to_string (pos n) (lt→ltb _ _ fits),
      )
      (ground arith)

-- Of the numbers n that fit an int, n < 2 ^ 31, CheckValid accepts `ip:n` for those from 1 to 65536
-- and for no others, if ip has no colon and is not empty. Larger numbers are not covered, since atoi
-- is undefined there.
pub check_valid_text_lem :
    (ip : List ℕ) (n : ℕ)
    → Without b':' ip
    → 0 < length ip
    → n < 2 ^ 31
    → check_valid_text (ip ++ (b':' ∷ to_string (pos n))) ≡ ok (ltb 0 n && leb n 65536)
unfolding check_valid_text
check_valid_text_lem ip n h some_ip fits =
    rw (find_first_of-append b':' ip (to_string (pos n)) h, check_valid_text)
      (rw (drop-colon ip (to_string (pos n))) (
        ap (λ t. check_parts t (to_string (pos n))) (take-append (length ip) ip _ refl)
        ∙ check_parts_lem ip n some_ip fits))

-- FindAddr on `ip:n` gives that address for n from 1 to 65535. It takes 65536 for a port as well, and
-- gives port 0 then. Other numbers and other texts are looked up among the stubs.
pub find_addr_lem :
    (stubs : Dict IpNetAddr) (ip : List ℕ) (n : ℕ)
    → Without b':' ip
    → 0 < length ip
    → n < 2 ^ 31
    → find_addr stubs (ip ++ (b':' ∷ to_string (pos n))) ≡ (
        if ltb 0 n && leb n 65536
        then ok (some (record { ip = ip; port = n % 2 ^ 16 }))
        else ok (lookup (ip ++ (b':' ∷ to_string (pos n))) stubs))
unfolding find_addr
find_addr_lem stubs ip n h some_ip fits =
    rw (check_valid_text_lem ip n h some_ip fits, of_text-port ip n h fits)
