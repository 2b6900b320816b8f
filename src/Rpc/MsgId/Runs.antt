-- ===== src/Rpc/MsgId/Runs.antt =====
-- The id 199, and the id of twenty nines behind two random ids.
use talon_rpc.Prelude.{ℕ, ◌≡◌, List, none, arith}
use talon_rpc.Prelude.Text.{codes}
use talon_rpc.Prelude.Outcome.{ok}
use talon_rpc.Rpc.MsgId.{gen_msg_id, IsNext, gen_msg_id-counts}

gen_msg_id-counts_example :
    (id : List ℕ) × (gen_msg_id none
        (record { msg_id_no = codes "199"; max_msg_id_no = codes "999" })
      ≡ ok (id, record { msg_id_no = id; max_msg_id_no = codes "999" }))
    × IsNext (codes "199") id
gen_msg_id-counts_example =
    gen_msg_id-counts none b'1' (codes "99") (codes "999")
      ((omega arith, omega arith), ((omega arith, omega arith), ((omega arith, omega arith), tt)))
      (λ h. ground arith) (λ h. ground arith)
