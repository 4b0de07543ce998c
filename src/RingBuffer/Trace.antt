-- ===== src/RingBuffer/Trace.antt =====
-- Whole runs of a ring buffer against runs of a queue.
use astro_photo_power_box.Prelude.{
  ℕ, ◌<◌, ◌≡◌, refl, ap, ◌∙◌, Bool, true, List, [], ◌∷◌, length, arith,
}
use astro_photo_power_box.RingBuffer.{
  RbBase, rb_base, remaining_elm, peak, read, write, write_lossy, clear,
}
use astro_photo_power_box.RingBuffer.Inv.{
  IsValid, rb_base-IsValid, read-IsValid, write-IsValid, write_lossy-IsValid, clear-IsValid,
}
use astro_photo_power_box.RingBuffer.Queue
use astro_photo_power_box.RingBuffer.Contents.{contents, elements}
use astro_photo_power_box.RingBuffer.Refine.{
  write_refines, read_refines, write_lossy_refines, contents-clear, remaining_elm-length,
}

-- A call of a method; those that hand an element out get the value that the output has before.
pub data Call {ℓ} (A : Type ℓ) : Type ℓ where
  write_call write_lossy_call read_call peak_call : A → Call A
  clear_call remaining_call : Call A

-- What the caller sees.
pub data Answer {ℓ} (A : Type ℓ) : Type ℓ where
  accepted : Bool → Answer A
  handed : Bool → A → Answer A
  counted : ℕ → Answer A
  nothing : Answer A

module _ {ℓ} {A : Type ℓ} where
  unfoldable pub call : Call A → RbBase A → Answer A × RbBase A
  call (write_call x) r = let (b, r) = write x r in (accepted b, r)
  call (write_lossy_call x) r = let (b, r) = write_lossy x r in (accepted b, r)
  call (read_call x) r = let (b, v, r) = read x r in (handed b v, r)
  call (peak_call x) r = let (b, v) = peak x r in (handed b v, r)
  call clear_call r = (nothing, clear r)
  call remaining_call r = (counted (remaining_elm r), r)

  unfoldable pub run : List (Call A) → RbBase A → List (Answer A) × RbBase A
  unfolding call
  run [] r = ([], r)
  run (c ∷ cs) r = let (a, r) = call c r in let (as_, r) = run cs r in (a ∷ as_, r)

  -- The same calls on a queue with room for `capacity` elements.
  unfoldable pub queue_call : ℕ → Call A → List A → Answer A × List A
  unfolding Queue.push Queue.push_lossy Queue.pop
  queue_call capacity (write_call x) q = let (b, q) = Queue.push capacity x q in (accepted b, q)
  queue_call capacity (write_lossy_call x) q = (accepted true, Queue.push_lossy capacity x q)
  queue_call capacity (read_call x) q = let (b, v, q) = Queue.pop x q in (handed b v, q)
  queue_call capacity (peak_call x) q = let (b, v, _) = Queue.pop x q in (handed b v, q)
  queue_call capacity clear_call q = (nothing, [])
  queue_call capacity remaining_call q = (counted (length q), q)

  unfoldable pub queue_run : ℕ → List (Call A) → List A → List (Answer A)
  unfolding queue_call
  queue_run capacity [] q = []
  queue_run capacity (c ∷ cs) q =
      let (a, q) = queue_call capacity c q in a ∷ queue_run capacity cs q

module _ {ℓ} {A : Type ℓ} (blank : A) where
  -- What is looked at is what a `read` would take.
  peak_refines :
      (x : A) {r : RbBase A}
      → IsValid r
      → let (_, first, _) = Queue.pop x (contents blank r) in
        peak x r ≡ ((Queue.pop x (contents blank r)).0, first)
  unfolding read
  peak_refines x v = ap (λ t. (t.0, t.1)) (read_refines blank x v)

  call-IsValid :
      (c : Call A) {r : RbBase A}
      → IsValid r
      → IsValid (call c r).1 × ((call c r).1.num_elements ≡ r.num_elements)
  unfolding call write write_lossy read clear
  call-IsValid (write_call x) v = (write-IsValid x v, ground arith)
  call-IsValid (write_lossy_call x) v = (write_lossy-IsValid x v, ground arith)
  call-IsValid (read_call x) v = (read-IsValid x v, ground arith)
  call-IsValid (peak_call x) v = (v, refl)
  call-IsValid clear_call v = (clear-IsValid v, refl)
  call-IsValid remaining_call v = (v, refl)

  call_refines :
      (c : Call A) {r : RbBase A}
      → IsValid r
      → let (a, r') = call c r in
        (a, contents blank r') ≡ queue_call r.num_elements c (contents blank r)
  unfolding call queue_call
  call_refines (write_call x) v = ap (λ w. (accepted w.0, w.1)) (write_refines blank x v)
  call_refines (write_lossy_call x) v =
      let (b, q) = write_lossy_refines blank x v in λ i. (accepted (b i), q i)
  call_refines (read_call x) v = ap (λ t. (handed t.0 t.1, t.2)) (read_refines blank x v)
  call_refines (peak_call x) {r} v = ap (λ t. (handed t.0 t.1, contents blank r)) (peak_refines x v)
  call_refines clear_call {r} v = ap (λ q. (nothing, q)) (contents-clear blank r)
  call_refines remaining_call {r} v =
      ap (λ n. (counted n, contents blank r)) (remaining_elm-length blank r)

  run_from :
      (cs : List (Call A)) (r : RbBase A) (n : ℕ)
      → IsValid r
      → r.num_elements ≡ n
      → (run cs r).0 ≡ queue_run n cs (contents blank r)
  unfolding run queue_run
  run_from [] r n v e = refl
  run_from (c ∷ cs) r n v e =
      let (v', e') = call-IsValid c v in
      let ih = run_from cs (call c r).1 n v' (e' ∙ e) in
      let same = call_refines c v ∙ ap (λ m. queue_call m c (contents blank r)) e in
      ap (λ t. (call c r).0 ∷ t) ih ∙ ap (λ t. t.0 ∷ queue_run n cs t.1) same

  fresh : (n : ℕ) → contents blank (rb_base blank true n) ≡ []
  unfolding rb_base remaining_elm elements
  fresh n = refl

  -- Nobody can tell a ring buffer from a queue: over any sequence of calls of `write`, `writeLossy`,
  -- `read`, `peak`, `clear` and `remainingElm`, a buffer that was built with room for 1 to 65535
  -- elements, and whose memory was allocated, gives the answers of an empty queue of that capacity.
  pub run-queue_run :
      (n : ℕ) (cs : List (Call A))
      → 0 < n
      → n < 65536
      → (run cs (rb_base blank true n)).0 ≡ queue_run n cs []
  run-queue_run n cs h k =
      rw (← fresh n) (
        run_from cs (rb_base blank true n) n (rb_base-IsValid blank n h k) (unfold rb_base in refl))
