-- ===== src/Mqtt/Life/Balance.antt =====
-- What the construction of a client takes from the platform, and what its end gives back.
use esp_qcloud.Prelude.{
  ℕ, ◌+◌, ◌≡◌, ◌⊎◌, refl, ◌∙◌, arith, Bool, true, false, List, [], ◌∷◌, if◌then◌else◌, inl, inr,
}
use esp_qcloud.Mqtt.Life.Resources.{
  Platform, take_answer, mutex_create, list_create, init_handles, init_error, create_else, set_1,
  set_2, set_3, set_4, set_5,
}

-- `n` holds so many mutexes and lists more than `m`, and as many clients.
abbrev pub Holds : ℕ → ℕ → Platform → Platform → Type 0
Holds k l m n = (n.mutexes ≡ m.mutexes + k) × (n.lists ≡ m.lists + l) × (n.clients ≡ m.clients)

-- A success holds so much more, and a failure nothing.
abbrev pub Makes : ℕ → ℕ → Platform → Bool × Platform → Type 0
Makes k l m r = ((r.0 ≡ true) × Holds k l m r.1) ⊎ ((r.0 ≡ false) × Holds 0 0 m r.1)

mutex_Makes :
    (m : Platform) (l : List Bool)
    → let r = take_answer l m in
      Makes 1 0 m (r.0, if r.0 then record r.1 { mutexes = r.1.mutexes + 1 } else r.1)
unfolding take_answer
mutex_Makes m [] = inl (refl, (refl, omega arith, refl))
mutex_Makes m (true ∷ l) = inl (refl, (refl, omega arith, refl))
mutex_Makes m (false ∷ l) = inr (refl, (omega arith, omega arith, refl))

list_Makes :
    (m : Platform) (l : List Bool)
    → let r = take_answer l m in
      Makes 0 1 m (r.0, if r.0 then record r.1 { lists = r.1.lists + 1 } else r.1)
unfolding take_answer
list_Makes m [] = inl (refl, (omega arith, refl, refl))
list_Makes m (true ∷ l) = inl (refl, (omega arith, refl, refl))
list_Makes m (false ∷ l) = inr (refl, (omega arith, omega arith, refl))

mutex_create-Makes : (m : Platform) → Makes 1 0 m (mutex_create m)
unfolding mutex_create
mutex_create-Makes m = mutex_Makes m m.answers

list_create-Makes : (m : Platform) → Makes 0 1 m (list_create m)
unfolding list_create
list_create-Makes m = list_Makes m m.answers

-- One creation in a sequence: what was held before is given back if it fails.
create_else-Makes :
    (m n : Platform) (k l k' l' : ℕ) (create : Platform → Bool × Platform)
    (fail : Platform → Platform) (more : Platform → Bool × Platform)
    → Holds k l m n
    → Makes k' l' n (create n)
    → ((n : Platform) → Holds k l m n → Holds 0 0 m (fail n))
    → ((n : Platform) → Holds (k + k') (l + l') m n → Makes 4 2 m (more n))
    → Makes 4 2 m (create_else create fail more n)
unfolding create_else
create_else-Makes m n k l k' l' create fail more (a, b, c) (inl (y, (d, e, f))) undo next =
    rw y (next (create n).1 (omega arith, omega arith, f ∙ c))
create_else-Makes m n k l k' l' create fail more (a, b, c) (inr (r, (d, e, f))) undo next =
    rw r (inr (refl, undo (create n).1 (omega arith, omega arith, f ∙ c)))

-- The label `error` gives back what was made before.
error_1 : (m n : Platform) → Holds 1 0 m n → Holds 0 0 m (init_error set_1 n)
unfolding init_error
error_1 m n (a, b, c) = (omega arith, omega arith, c)

error_2 : (m n : Platform) → Holds 2 0 m n → Holds 0 0 m (init_error set_2 n)
unfolding init_error
error_2 m n (a, b, c) = (omega arith, omega arith, c)

error_3 : (m n : Platform) → Holds 3 0 m n → Holds 0 0 m (init_error set_3 n)
unfolding init_error
error_3 m n (a, b, c) = (omega arith, omega arith, c)

error_4 : (m n : Platform) → Holds 4 0 m n → Holds 0 0 m (init_error set_4 n)
unfolding init_error
error_4 m n (a, b, c) = (omega arith, omega arith, c)

error_5 : (m n : Platform) → Holds 4 1 m n → Holds 0 0 m (init_error set_5 n)
unfolding init_error
error_5 m n (a, b, c) = (omega arith, omega arith, c)

-- The locks and the lists of a client are all made, or none is kept: `error` gives back those that
-- were made before the first that is refused.
pub init_handles-Makes : (m : Platform) → Makes 4 2 m (init_handles m)
unfolding init_handles
init_handles-Makes m =
    create_else-Makes m m 0 0 1 0 _ _ _ (omega arith, omega arith, refl) (mutex_create-Makes m)
      (λ n h. h)
      (λ n h. create_else-Makes m n 1 0 1 0 _ _ _ h (mutex_create-Makes n) (error_1 m) (λ n h.
        create_else-Makes m n 2 0 1 0 _ _ _ h (mutex_create-Makes n) (error_2 m) (λ n h.
          create_else-Makes m n 3 0 1 0 _ _ _ h (mutex_create-Makes n) (error_3 m) (λ n h.
            create_else-Makes m n 4 0 0 1 _ _ _ h (list_create-Makes n) (error_4 m) (λ n h.
              create_else-Makes m n 4 1 0 1 _ _ _ h (list_create-Makes n) (error_5 m)
                (λ n h. inl (refl, h)))))))
