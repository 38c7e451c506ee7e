-- ===== src/Queue/Fifo.antt =====
-- `InputsQueue` of internal/queue/queue.go, the queue in memory. An error's text is left out.
use mxlrcgo_svc.Common.{
  ℕ, ◌≡◌, refl, ap, ◌∙◌, sym, Bool, Option, none, some, List, [], ◌∷◌, ◌++◌, ◌==◌, length,
}
use mathlib.Core.List.{append_assoc, append-nil}
use mxlrcgo_svc.Models.{Inputs}

pub record InputsQueue : Type 0 where
  pub queue : List Inputs

unfoldable pub new_inputs_queue : InputsQueue
new_inputs_queue = record { queue = [] }

unfoldable pub len : InputsQueue → ℕ
len q = length q.queue

unfoldable pub empty : InputsQueue → Bool
empty q = len q == 0

head_of : List Inputs → Option Inputs
head_of [] = none
head_of (i ∷ is) = some i

unfoldable pub next : InputsQueue → Option Inputs
unfolding head_of
next q = head_of q.queue

pop_front : List Inputs → Option (InputsQueue × Inputs)
pop_front [] = none
pop_front (i ∷ is) = some (record { queue = is }, i)

unfoldable pub pop : InputsQueue → Option (InputsQueue × Inputs)
unfolding pop_front
pop q = pop_front q.queue

unfoldable pub push : Inputs → InputsQueue → InputsQueue
push i q = record { queue = q.queue ++ i ∷ [] }

pub data Move : Type 0 where
  pushes : Inputs → Move
  pops : Move

-- What the moves put in.
abbrev pub pushed : List Move → List Inputs
pushed [] = []
pushed (pushes i ∷ ms) = i ∷ pushed ms
pushed (pops ∷ ms) = pushed ms

abbrev after_pop : InputsQueue → Option (InputsQueue × Inputs) → InputsQueue × List Inputs
after_pop q none = (q, [])
after_pop q (some (q', i)) = (q', i ∷ [])

-- The queue after the moves, with what came out.
unfoldable pub run : InputsQueue → List Move → InputsQueue × List Inputs
run q [] = (q, [])
run q (pushes i ∷ ms) = run (push i q) ms
run q (pops ∷ ms) =
    let (q', out) = after_pop q (pop q) in let (last, rest) = run q' ms in (last, out ++ rest)

after_pop-order :
    (q : List Inputs)
    → let (q', out) = after_pop (record { queue = q }) (pop (record { queue = q })) in
      out ++ q'.queue ≡ q
unfolding pop
after_pop-order [] = refl
after_pop-order (i ∷ is) = refl

-- First in, first out, through any pushes and pops (a pop of the empty queue gives nothing): what
-- came out, followed by what is still inside, is what was inside and then what was pushed, in order.
pub run-order :
    (q : InputsQueue) (ms : List Move) → (run q ms).1 ++ (run q ms).0.queue ≡ q.queue ++ pushed ms
unfolding run push
run-order q [] = sym (append-nil q.queue)
run-order q (pushes i ∷ ms) = run-order (push i q) ms ∙ append_assoc q.queue (i ∷ []) (pushed ms)
run-order q (pops ∷ ms) =
    let (q', out) = after_pop q (pop q) in
    append_assoc out (run q' ms).1 (run q' ms).0.queue
    ∙ ap (λ x. out ++ x) (run-order q' ms)
    ∙ sym (append_assoc out q'.queue (pushed ms))
    ∙ ap (λ x. x ++ pushed ms) (after_pop-order q.queue)
