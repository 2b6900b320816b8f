-- ===== src/Coder/Net.antt =====
-- htonl with memcpy, and getInt32FromNetByte of common/util.cc: an int32_t as four bytes, the highest
-- first.
use talon_rpc.Prelude.{
  ℕ, ◌+◌, ◌*◌, ◌/◌, ◌%◌, ◌^◌, ◌≤◌, ◌≡◌, refl, ap, ◌∙◌, List, [], ◌∷◌, ◌++◌, length, drop, arith,
  sym, take-append, length-append, length-drop,
}
use talon_rpc.Prelude.Int.{ℤ, to_word, of_word, IsInt32, to_word-lt, of_word-to_word}
use talon_rpc.Prelude.Outcome.{Outcome, ok, ◌>>=◌}
use talon_rpc.Memory.{mem_read, mem_read_lem}

unfoldable pub net_bytes : ℤ → List ℕ
net_bytes z =
    let w = to_word z in
    (w / 2 ^ 24 % 2 ^ 8) ∷ (w / 2 ^ 16 % 2 ^ 8) ∷ (w / 2 ^ 8 % 2 ^ 8) ∷ (w % 2 ^ 8) ∷ []

unfoldable pub net_word : List ℕ → ℕ
net_word (a ∷ b ∷ c ∷ d ∷ []) = a * 2 ^ 24 + b * 2 ^ 16 + c * 2 ^ 8 + d
net_word _ = 0

unfoldable pub get_int32_from_net_byte : List ℕ → ℕ → Outcome ℤ
get_int32_from_net_byte buf i = do bytes ← mem_read buf i 4; ok (of_word (net_word bytes))

pub length-net_bytes : (z : ℤ) → length (net_bytes z) ≡ 4
unfolding net_bytes
length-net_bytes z = refl

net_word-net_bytes : (z : ℤ) → IsInt32 z → net_word (net_bytes z) ≡ to_word z
unfolding net_word net_bytes
net_word-net_bytes z h = omega (arith, to_word-lt z h)

pub mem_read_at :
    (tmp : List ℕ) (k n : ℕ) (xs rest : List ℕ)
    → drop k tmp ≡ xs ++ rest
    → n ≡ length xs
    → k ≤ length tmp
    → mem_read tmp k n ≡ ok xs
mem_read_at tmp k n xs rest e size inside =
    let long : length (drop k tmp) ≡ length xs + length rest =
      ap length e ∙ length-append xs rest in
    mem_read_lem tmp k n (omega (arith, length-drop k tmp))
    ∙ ap ok (rw e (take-append n xs rest size))

-- Where the next bytes are those of an int32_t, getInt32FromNetByte returns it.
pub get_int32-net_bytes :
    (tmp : List ℕ) (k : ℕ) (z : ℤ) (rest : List ℕ)
    → drop k tmp ≡ net_bytes z ++ rest
    → IsInt32 z
    → k ≤ length tmp
    → get_int32_from_net_byte tmp k ≡ ok z
unfolding get_int32_from_net_byte
get_int32-net_bytes tmp k z rest e h inside = rw (
  mem_read_at tmp k 4 (net_bytes z) rest e (sym (length-net_bytes z)) inside,
  net_word-net_bytes z h,
  of_word-to_word z h,
)
