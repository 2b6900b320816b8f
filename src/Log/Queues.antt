-- ===== src/Log/Queues.antt =====
-- What the two queues hold together.
use talon_rpc.Prelude.{ℕ, ◌≡◌, refl, sym, ap, ◌∙◌, List, [], ◌∷◌, ◌++◌, append_assoc, append-nil}
use talon_rpc.Log.{Logger, push_log_buffer, sync_loop}

-- The logs of a queue, in their order.
abbrev pub flat : List (List (List ℕ)) → List (List ℕ)
flat [] = []
flat (vec ∷ queue) = vec ++ flat queue

flat-append : (q r : List (List (List ℕ))) → flat (q ++ r) ≡ flat q ++ flat r
flat-append [] r = refl
flat-append (v ∷ q) r = rw (flat-append q r) (sym (append_assoc v (flat q) (flat r)))

flat-push :
    (vec : List (List ℕ)) (q : List (List (List ℕ))) → flat (push_log_buffer vec q) ≡ flat q ++ vec
unfolding push_log_buffer
flat-push [] q = sym (append-nil (flat q))
flat-push (msg ∷ vec) q =
    flat-append q ((msg ∷ vec) ∷ []) ∙ ap (◌++◌ (flat q)) (append-nil (msg ∷ vec))

-- All logs of one kind that a logger holds, the oldest first.
abbrev pub held : Logger → List (List ℕ)
held l = flat l.async ++ l.buffer

abbrev pub app_held : Logger → List (List ℕ)
app_held l = flat l.app_async ++ l.app_buffer

-- syncLoop moves the logs of both kinds to the queues of the writing threads: none is lost or doubled,
-- their order stays, and nothing is left in the two buffers.
pub sync_loop-held :
    (l : Logger)
    → (held (sync_loop l) ≡ held l)
      × (app_held (sync_loop l) ≡ app_held l)
      × ((sync_loop l).buffer ≡ [])
      × ((sync_loop l).app_buffer ≡ [])
unfolding sync_loop
sync_loop-held l = (
  append-nil _ ∙ flat-push l.buffer l.async,
  append-nil _ ∙ flat-push l.app_buffer l.app_async,
  refl,
  refl,
)
