-- ===== src/Sched/Queue/Fifo.antt =====
-- `ProcQueueEnqueue` and `ProcQueueDequeue` of kernel/proc.c and the entries that a queue holds.
use osn.Base.{
  ℕ, zero, suc, ◌+◌, ◌%◌, ◌≤◌, ◌<◌, ◌≡◌, refl, ap, ap₂, sym, ◌∙◌, List, [], ◌∷◌, ◌++◌, Option, none,
  some, get_or, set, length, arith, length-set, get_or-set_self, get_or-set_ne, get_elem?-eq-get_or,
  inl, inr, ◌⊎◌,
}
use osn.Base.Int.{pos, minus_one}
use osn.Sched.Queue.{ProcQueue, enqueue, dequeue, pq_init}

-- The `n` entries from index `f` on, going round at 64.
abbrev pub window : List (Option ℕ) → ℕ → ℕ → List (Option ℕ)
window xs f zero = []
window xs f (suc n) = get_or xs f none ∷ window xs ((f + 1) % 64) n

length-window : (xs : List (Option ℕ)) (f n : ℕ) → length (window xs f n) ≡ n
length-window xs f zero = refl
length-window xs f (suc n) = ap suc (length-window xs ((f + 1) % 64) n)

-- Writing just past a window makes it longer by the entry.
window-set :
    (xs : List (Option ℕ)) (v : Option ℕ) (n f i : ℕ)
    → 64 ≤ length xs
    → f < 64
    → n < 64
    → i ≡ (f + n) % 64
    → window (set xs i v) f (suc n) ≡ window xs f n ++ (v ∷ [])
window-set xs v zero f i hs hf hn e =
    let e' : i ≡ f = omega arith in
    rw e' (ap (λ x. x ∷ []) (get_or-set_self xs f v none (omega arith)))
window-set xs v (suc n) f i hs hf hn e =
    ap₂ ◌∷◌ (get_or-set_ne xs v none (λ h. omega arith))
      (window-set xs v n ((f + 1) % 64) i hs (omega arith) (omega arith) (omega arith))

-- The queue holds exactly the entries `items`, oldest first: none, with both indices -1, or the `suc n`
-- from index `f` on.
pub data Holds : ProcQueue → List (Option ℕ) → Type 0 where
  empty :
      (list : List (Option ℕ))
      → length list ≡ 128
      → Holds (record { front = minus_one; rear = minus_one; list = list }) []
  some_items :
      (f n r : ℕ) (list items : List (Option ℕ))
      → length list ≡ 128
      → f < 64
      → n < 64
      → r ≡ (f + n) % 64
      → items ≡ window list f (suc n)
      → Holds (record { front = pos f; rear = pos r; list = list }) items

-- The initial queue holds one null entry: index 0 is its front and its rear.
pub pq_init-Holds : Holds pq_init (none ∷ [])
unfolding pq_init
pq_init-Holds = some_items 0 0 0 _ (none ∷ []) refl (omega arith) (omega arith) (omega arith) refl

-- `ProcQueueEnqueue` on a queue of fewer than 64 entries puts the process behind them.
pub enqueue-Holds :
    {q : ProcQueue} {items : List (Option ℕ)} (p : ℕ)
    → Holds q items
    → length items < 64
    → (q' : ProcQueue) × (enqueue q p ≡ some q') × Holds q' (items ++ (some p ∷ []))
unfolding enqueue
enqueue-Holds p (empty list len) room = (
  record { front = pos 0; rear = pos 0; list = set list 0 (some p) },
  ground arith,
  some_items 0 0 0 (set list 0 (some p)) (some p ∷ []) (length-set list 0 (some p) ∙ len)
      (omega arith) (omega arith) (omega arith)
      (ap (λ x. x ∷ []) (sym (get_or-set_self list 0 (some p) none (omega arith)))),
)
enqueue-Holds p (some_items f n r list items len hf hn at same) room =
    let size : length items ≡ suc n = ap length same ∙ length-window list f (suc n) in
    let i = (r + 1) % 64 in
    (
      record { front = pos f; rear = pos i; list = set list i (some p) },
      ground arith,
      some_items f (suc n) i (set list i (some p)) (items ++ (some p ∷ []))
          (length-set list i (some p) ∙ len) hf (omega arith) (omega arith)
          (ap (λ xs. xs ++ (some p ∷ [])) same
            ∙ sym (
                window-set list (some p) (suc n) f i (omega arith) hf (omega arith) (omega arith))),
    )

-- `ProcQueueDequeue` returns null from an empty queue, and otherwise takes the oldest entry.
pub dequeue-Holds :
    {q : ProcQueue} {items : List (Option ℕ)}
    → Holds q items
    → ((items ≡ []) × (dequeue q ≡ some (none, q)))
      ⊎ ((x : Option ℕ) × (rest : List (Option ℕ)) × (q' : ProcQueue) × (items ≡ x ∷ rest)
          × (dequeue q ≡ some (x, q'))
          × Holds q' rest)
unfolding dequeue
dequeue-Holds (empty list len) = inl (refl, refl)
dequeue-Holds (some_items f zero r list items len hf hn at same) = inr (
  get_or list f none,
  [],
  record { front = minus_one; rear = minus_one; list = set list f none },
  same,
  ground (arith, get_elem?-eq-get_or list f none),
  empty (set list f none) (length-set list f none ∙ len),
)
dequeue-Holds (some_items f (suc n) r list items len hf hn at same) = inr (
  get_or list f none,
  window list ((f + 1) % 64) (suc n),
  record { front = pos ((f + 1) % 64); rear = pos r; list = list },
  same,
  ground (arith, get_elem?-eq-get_or list f none),
  some_items ((f + 1) % 64) n r list (window list ((f + 1) % 64) (suc n)) len (omega arith)
      (omega arith) (omega arith) refl,
)
