-- ===== src/ChatCursor/Subscriptions/Running.antt =====
-- The tasks of `ChatCursorRelay` in src/hermes_vylen_gateway/chat_cursor.py that run.
use hermes_vylen_gateway.Prelude.{
  some-injective, ℕ, All, ◌||◌, zero, suc, ◌≡◌, ◌≢◌, refl, sym, ap, ◌∙◌, inl, inr, ◌⊎◌, Bool, true,
  false, List, [], ◌∷◌, ◌++◌, none, some, arith, ◌==◌, nat_eq, length, get_elem?, set, Bool-cases,
  Option-cases, subst, nat_beq_iff, get_elem?-set_self, get_elem?-set_ne,
}
use hermes_vylen_gateway.Prelude.Dict
use hermes_vylen_gateway.Prelude.Dict.{Dict}
use hermes_vylen_gateway.Prelude.Text.{Text, text_eq, text_beq_iff}
use hermes_vylen_gateway.ChatStore.Texts.{clean_id}
use hermes_vylen_gateway.ChatCursor.Frames.{Request}
use hermes_vylen_gateway.ChatCursor.Subscriptions.{
  Subscription, ChatCursorTasks, stop_task, cancel, start_task, stop_tasks, close, end_task,
  handle_subscribe,
}

-- Every task that runs is the one that stands under its request id.
abbrev pub IsTracked : ChatCursorTasks → Type 0
IsTracked s =
    (n : ℕ) (task : Subscription)
    → get_elem? s.all n ≡ some task
    → task.running ≡ true
    → Dict.get task.request_id s.tasks ≡ some n

absurd_none {ℓ κ} : {A : Type ℓ} {B : Type κ} {x : A} → none ≡ some x → B
absurd_none e = absurd (cc)

absurd_stopped {κ} :
    {B : Type κ} (x : Subscription) {task : Subscription}
    → some (record x { running = false }) ≡ some task
    → task.running ≡ true
    → B
absurd_stopped x {task} e r =
    let same : false ≡ task.running = ap (λ t. t.running) (some-injective e) in absurd (cc)

absurd_running {κ} : {B : Type κ} {b : Bool} → b ≡ true → b ≡ false → B
absurd_running t f = absurd (cc)

tasks_stopped :
    (tasks : List Subscription)
    → ((n : ℕ) (t : Subscription) → get_elem? tasks n ≡ some t → t.running ≡ false)
    → All (λ t. t.running ≡ false) tasks
tasks_stopped [] h = tt
tasks_stopped (t ∷ tasks) h = (h zero t refl, tasks_stopped tasks (λ n. h (suc n)))

get_elem?-snoc {ℓ} :
    {A : Type ℓ} (xs : List A) (x y : A) (n : ℕ)
    → get_elem? (xs ++ x ∷ []) n ≡ some y
    → (get_elem? xs n ≡ some y) ⊎ ((n ≡ length xs) × (x ≡ y))
get_elem?-snoc [] x y zero h = inr (refl, some-injective h)
get_elem?-snoc [] x y (suc n) h = absurd_none h
get_elem?-snoc (z ∷ xs) x y zero h = inl h
get_elem?-snoc (z ∷ xs) x y (suc n) h = elim (get_elem?-snoc xs x y n h) [
  | inl old ↦ inl old
  | inr (last, same) ↦ inr (ap suc last, same)
]

-- A task that runs after one was stopped is another one, and ran before.
stop_task-running :
    (all : List Subscription) (m n : ℕ) (task : Subscription)
    → get_elem? (stop_task all m) n ≡ some task
    → task.running ≡ true
    → (get_elem? all n ≡ some task) × (m ≢ n)
stop_task-running all m n task h r = elim (Option-cases (get_elem? all m)) [
  | inl miss ↦
      let old : get_elem? all n ≡ some task =
        subst (λ xs. get_elem? xs n ≡ some task) (rw (miss, stop_task) refl) h in
      (old, λ e. absurd_none (sym miss ∙ ap (get_elem? all) e ∙ old))
  | inr (x, found) ↦
      let stopped : Subscription = record x { running = false } in
      let after : get_elem? (set all m stopped) n ≡ some task =
        subst (λ xs. get_elem? xs n ≡ some task) (rw (found, stop_task) refl) h in
      elim (Bool-cases (m == n)) [
        | inl same ↦
            let e : m ≡ n = ground arith in
            (absurd_stopped x
              (sym (get_elem?-set_self all m stopped x found)
                ∙ ap (get_elem? (set all m stopped)) e
                ∙ after)
              r)
        | inr other ↦
            let ne : m ≢ n = ground (arith, nat_beq_iff m n) in
            (sym (get_elem?-set_ne all m n stopped ne) ∙ after, ne)
      ]
]

-- The task under an id is stopped and leaves the table.
remove-IsTracked :
    (s : ChatCursorTasks) (id : Text) (m : ℕ)
    → Dict.get id s.tasks ≡ some m
    → IsTracked s
    → IsTracked (record { tasks = Dict.remove id s.tasks; all = stop_task s.all m })
remove-IsTracked s id m found v n task h r =
    let (old, ne) = stop_task-running s.all m n task h r in
    let tracked = v n task old r in
    Dict.get-remove id task.request_id s.tasks ∙ (elim (Bool-cases (id == task.request_id)) [
      | inl same ↦
          let e : id ≡ task.request_id = (text_beq_iff id task.request_id).0 same in
          absurd (ne (some-injective (sym found ∙ ap (λ k. Dict.get k s.tasks) e ∙ tracked)))
      | inr other ↦ rw other tracked
    ])

stop-IsTracked :
    (s : ChatCursorTasks) (m : ℕ) → IsTracked s → IsTracked (record s { all = stop_task s.all m })
stop-IsTracked s m v n task h r = v n task (stop_task-running s.all m n task h r).0 r

cancel-IsTracked : (s : ChatCursorTasks) (id : Text) → IsTracked s → IsTracked (cancel s id)
unfolding cancel
cancel-IsTracked s id v = elim (Option-cases (Dict.get id s.tasks)) [
  | inl miss ↦ rw (miss, cancel) v
  | inr (m, found) ↦ rw (found, cancel) (remove-IsTracked s id m found v)
]

start_task-IsTracked :
    (s : ChatCursorTasks) (task : Subscription)
    → Dict.get task.request_id s.tasks ≡ none
    → IsTracked s
    → IsTracked (start_task s task)
start_task-IsTracked s new miss v n task h r = elim (get_elem?-snoc s.all new task n h) [
  | inl old ↦
      let tracked = v n task old r in
      Dict.get-put new.request_id task.request_id (length s.all) s.tasks
      ∙ (elim (Bool-cases (new.request_id == task.request_id)) [
        | inl same ↦
            let e : new.request_id ≡ task.request_id =
              (text_beq_iff new.request_id task.request_id).0 same in
            absurd_none (sym miss ∙ ap (λ k. Dict.get k s.tasks) e ∙ tracked)
        | inr other ↦ rw other tracked
      ])
  | inr (last, same) ↦
      Dict.get-put new.request_id task.request_id (length s.all) s.tasks
      ∙ rw ((text_beq_iff new.request_id task.request_id).1 (ap (λ t. t.request_id) same))
          (ap some (sym last))
]

stop_tasks-running :
    (all : List Subscription) (d : Dict Text ℕ) (n : ℕ) (task : Subscription)
    → get_elem? (stop_tasks all d) n ≡ some task
    → task.running ≡ true
    → (get_elem? all n ≡ some task) × ((k : Text) → Dict.get k d ≢ some n)
unfolding Dict.get
stop_tasks-running all [] n task h r = (h, λ k e. cc)
stop_tasks-running all ((j, m) ∷ d) n task h r =
    let (before, none_left) = stop_tasks-running (stop_task all m) d n task h r in
    let (old, ne) = stop_task-running all m n task before r in
    (
      old,
      λ k. elim (Bool-cases (j == k)) [
        | inl same ↦ rw same (λ e. ne (some-injective e))
        | inr other ↦ rw other (none_left k)
      ],
    )

end_task-IsTracked : (s : ChatCursorTasks) (n : ℕ) → IsTracked s → IsTracked (end_task s n)
unfolding end_task
end_task-IsTracked s m v = elim (Option-cases (get_elem? s.all m)) [
  | inl miss ↦ rw (miss, end_task) v
  | inr (x, found) ↦ elim (Option-cases (Dict.get x.request_id s.tasks)) [
    | inl none_there ↦ rw (found, end_task) (rw none_there (stop-IsTracked s m v))
    | inr (p, there) ↦ elim (Bool-cases (p == m)) [
      | inl same ↦
          let e : p ≡ m = ground (arith, nat_beq_iff p m) in
          rw (found, end_task)
            (rw there (rw same (remove-IsTracked s x.request_id m (there ∙ ap some e) v)))
      | inr other ↦ rw (found, end_task) (rw there (rw other (stop-IsTracked s m v)))
    ]
  ]
]

-- After `close` no task runs.
close-stops :
    (s : ChatCursorTasks) (n : ℕ) (task : Subscription)
    → IsTracked s
    → get_elem? (close s).all n ≡ some task
    → task.running ≡ false
unfolding close
close-stops s n task v h = elim (Bool-cases task.running) [
  | inl r ↦
      let (old, unseen) = stop_tasks-running s.all s.tasks n task h r in
      absurd (unseen task.request_id (v n task old r))
  | inr stopped ↦ stopped
]

cancel-gone : (s : ChatCursorTasks) (id : Text) → Dict.get id (cancel s id).tasks ≡ none
unfolding cancel
cancel-gone s id = elim (Option-cases (Dict.get id s.tasks)) [
  | inl miss ↦ rw (miss, cancel) miss
  | inr (m, found) ↦
      rw (found, cancel) (Dict.get-remove id id s.tasks ∙ rw ((text_beq_iff id id).1 refl))
]

module _ (V : Type 0) where
  handle_subscribe-IsTracked :
      (disabled : Bool) (s : ChatCursorTasks) (frame : Request)
      → IsTracked s
      → IsTracked (handle_subscribe {V = V} disabled s frame).0
  unfolding handle_subscribe
  handle_subscribe-IsTracked disabled s frame v =
      elim (Bool-cases (clean_id frame.request_id == [])) [
        | inl empty ↦ rw empty v
        | inr id ↦ elim (Bool-cases disabled) [
          | inl off ↦ rw (id, off) v
          | inr on ↦
              elim (Bool-cases (clean_id frame.chat_id == [] || clean_id frame.client_id == [])) [
                | inl invalid ↦ rw (id, on, invalid) v
                | inr fine ↦
                    rw (id, on, fine)
                      (start_task-IsTracked (cancel s (clean_id frame.request_id)) _
                        (cancel-gone s (clean_id frame.request_id))
                        (cancel-IsTracked s (clean_id frame.request_id) v))
              ]
        ]
      ]

  -- The calls of a relay, and the ends of its tasks.
  pub data Reach : ChatCursorTasks → Type 0 where
    fresh : Reach (record { tasks = []; all = [] })
    subscribes :
        {s : ChatCursorTasks} (disabled : Bool) (frame : Request)
        → Reach s
        → Reach (handle_subscribe {V = V} disabled s frame).0
    cancels : {s : ChatCursorTasks} (id : Text) → Reach s → Reach (cancel s id)
    ends : {s : ChatCursorTasks} (n : ℕ) → Reach s → Reach (end_task s n)
    closes : {s : ChatCursorTasks} → Reach s → Reach (close s)

  Reach-IsTracked : {s : ChatCursorTasks} → Reach s → IsTracked s
  Reach-IsTracked fresh = λ n task h r. absurd_none h
  Reach-IsTracked (subscribes {s} disabled frame reached) =
      handle_subscribe-IsTracked disabled s frame (Reach-IsTracked reached)
  Reach-IsTracked (cancels {s} id reached) = cancel-IsTracked s id (Reach-IsTracked reached)
  Reach-IsTracked (ends {s} n reached) = end_task-IsTracked s n (Reach-IsTracked reached)
  Reach-IsTracked (closes {s} reached) =
      λ n task h r. absurd_running r (close-stops s n task (Reach-IsTracked reached) h)

  -- Whatever was subscribed, cancelled and ended, at most one task runs for a request id, and it is the one that
  -- `cancel` finds under that id; so no task runs on that nobody can stop. After `close` none runs.
  pub Reach-one_running :
      {s : ChatCursorTasks} (reached : Reach s) (m n : ℕ) (x y : Subscription)
      → get_elem? s.all m ≡ some x
      → get_elem? s.all n ≡ some y
      → x.running ≡ true
      → y.running ≡ true
      → x.request_id ≡ y.request_id
      → (m ≡ n)
        × (Dict.get x.request_id s.tasks ≡ some m)
        × All (λ t. t.running ≡ false) (close s).all
  Reach-one_running {s} reached m n x y hx hy rx ry same =
      let v = Reach-IsTracked reached in
      let mx = v m x hx rx in
      let my = v n y hy ry in
      (
        some-injective (sym mx ∙ ap (λ k. Dict.get k s.tasks) same ∙ my),
        mx,
        tasks_stopped (close s).all (λ k t h. close-stops s k t v h),
      )
