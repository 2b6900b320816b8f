-- ===== src/Coder/StringCoder.antt =====
-- net/coder/string_coder.h: a coder that sends the texts of messages and nothing else.
-- A message is a StringProtocol; the cast of the code from AbstractProtocol succeeds on these.
use talon_rpc.Prelude.{
  ℕ, ◌+◌, ◌*◌, ◌/◌, ◌^◌, ◌<◌, ◌≡◌, refl, sym, ap, ◌∙◌, List, [], ◌∷◌, ◌++◌, length, length-append,
  append_assoc, append-nil, Option, none, some, arith, take_all,
}
use talon_rpc.Prelude.Text.{codes}
use talon_rpc.Prelude.Outcome.{Outcome, ok, ◌>>=◌}
use talon_rpc.Buffer.{TcpBuffer, IsValid, contents, read_able, write_to_buffer, read_from_buffer}
use talon_rpc.Buffer.Contents.{Holds, length-contents}
use talon_rpc.Buffer.Queue.{pop, read_from_buffer-pop}
use talon_rpc.Buffer.Writes.{write_to_buffer_appends}

pub record StringProtocol : Type 0 where
  pub msg_id : List ℕ
  pub info : List ℕ

unfoldable pub encode_strings : List StringProtocol → TcpBuffer → Outcome TcpBuffer
encode_strings [] out_buffer = ok out_buffer
encode_strings (message ∷ messages) out_buffer = do
  out_buffer' ← write_to_buffer out_buffer message.info
  encode_strings messages out_buffer'

-- The vector `re`, which stays empty where nothing is read.
abbrev pub bytes_or_none : Option (List ℕ) → List ℕ
bytes_or_none none = []
bytes_or_none (some re) = re

unfoldable pub decode_string : TcpBuffer → Outcome (List StringProtocol × TcpBuffer)
decode_string buffer = do
  (re, buffer') ← read_from_buffer buffer (read_able buffer)
  ok (record { msg_id = codes "12345"; info = bytes_or_none re } ∷ [], buffer')

-- The texts of the messages, one after the other.
abbrev pub all_info : List StringProtocol → List ℕ
all_info [] = []
all_info (message ∷ messages) = message.info ++ all_info messages

encode_strings-Holds :
    (messages : List StringProtocol) (b : TcpBuffer)
    → IsValid b
    → 3 * (b.write_index + length (all_info messages)) / 2 < 2 ^ 31
    → (c : TcpBuffer) × (encode_strings messages b ≡ ok c)
      × Holds (contents b ++ all_info messages) c
unfolding encode_strings
encode_strings-Holds [] b v fits =
    (b, refl, record { valid = v; unread = sym (append-nil (contents b)) })
encode_strings-Holds (message ∷ messages) b v fits =
    let l = length-append message.info (all_info messages) in
    let (b', e, held, low) = write_to_buffer_appends b message.info v (omega (arith, l)) in
    let (c, e', held') = encode_strings-Holds messages b' held.valid (omega (arith, l)) in
    (
      c,
      rw e e',
      record { valid = held'.valid; unread = held'.unread ∙ rw (held.unread, append_assoc) },
    )

bytes_or_none-pop :
    (n : ℕ) (queue : List ℕ) → n ≡ length queue → bytes_or_none (pop n queue).0 ≡ queue
bytes_or_none-pop n [] e = refl
bytes_or_none-pop n (c ∷ queue) e = take_all n (c ∷ queue) (omega (arith, e))

-- What encode writes into an empty buffer comes back from decode as one message, with the texts of all
-- messages in one: the borders between them are lost.
pub decode_string-encode_strings :
    (messages : List StringProtocol) (b : TcpBuffer)
    → IsValid b
    → contents b ≡ []
    → 3 * (b.write_index + length (all_info messages)) / 2 < 2 ^ 31
    → (c c' : TcpBuffer) × (encode_strings messages b ≡ ok c)
      × (decode_string c
          ≡ ok (record { msg_id = codes "12345"; info = all_info messages } ∷ [], c'))
unfolding decode_string
decode_string-encode_strings messages b v empty fits =
    let (c, e, held) = encode_strings-Holds messages b v fits in
    let (c', r, left, low) = read_from_buffer-pop c (read_able c) held.valid in
    let size : read_able c ≡ length (contents c) = sym (length-contents c held.valid) in
    let all =
      bytes_or_none-pop (read_able c) (contents c) size
      ∙ held.unread
      ∙ ap (λ t. t ++ all_info messages) empty in
    (c, c', e, rw r (ap (λ i. ok (record { msg_id = codes "12345"; info = i } ∷ [], c')) all))
