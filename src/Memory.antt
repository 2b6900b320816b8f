-- ===== src/Memory.antt =====
-- `memcpy` out of and into a vector of bytes; an access past the end is a fault.
use talon_rpc.Prelude.{
  ℕ, ◌+◌, ◌≤◌, ◌≡◌, List, ◌++◌, take, drop, length, leb, if◌then◌else◌, arith, length-take,
  length-drop, length-append,
}
use talon_rpc.Prelude.Outcome.{Outcome, ok, fault}

unfoldable pub mem_read : List ℕ → ℕ → ℕ → Outcome (List ℕ)
mem_read src off n = if leb (off + n) (length src) then ok (take n (drop off src)) else fault

abbrev pub overwrite : List ℕ → ℕ → List ℕ → List ℕ
overwrite dst off bytes = take off dst ++ (bytes ++ drop (off + length bytes) dst)

unfoldable pub mem_write : List ℕ → ℕ → List ℕ → Outcome (List ℕ)
mem_write dst off bytes =
    if leb (off + length bytes) (length dst) then ok (overwrite dst off bytes) else fault

pub mem_read_lem :
    (src : List ℕ) (off n : ℕ)
    → off + n ≤ length src
    → mem_read src off n ≡ ok (take n (drop off src))
unfolding mem_read
mem_read_lem src off n h = ground arith

pub mem_write_lem :
    (dst : List ℕ) (off : ℕ) (bytes : List ℕ)
    → off + length bytes ≤ length dst
    → mem_write dst off bytes ≡ ok (overwrite dst off bytes)
unfolding mem_write
mem_write_lem dst off bytes h = ground arith

pub length-slice :
    (src : List ℕ) (off n : ℕ) → off + n ≤ length src → length (take n (drop off src)) ≡ n
length-slice src off n h = omega (arith, length-take n (drop off src), length-drop off src)

pub length-overwrite :
    (dst : List ℕ) (off : ℕ) (bytes : List ℕ)
    → off + length bytes ≤ length dst
    → length (overwrite dst off bytes) ≡ length dst
length-overwrite dst off bytes h = omega (
  arith,
  length-append (take off dst) (bytes ++ drop (off + length bytes) dst),
  length-append bytes (drop (off + length bytes) dst),
  length-take off dst,
  length-drop (off + length bytes) dst,
)
