-- ===== src/Coap/Message/Order.antt =====
-- Options stay in the order of their numbers.
use esp_qcloud.Prelude.{
  ℕ, ◌%◌, ◌^◌, ◌≤◌, ◌≡◌, refl, arith, Bool, true, List, [], ◌∷◌, ltb, leb, ok, length, Bool-cases,
  inl, inr,
}
use mathlib.Core.List.{Perm}
use mathlib.Core.List.Perm
use esp_qcloud.Coap.Message.{
  CoapOption, CoapMessage, coap_option_init, insert_after, insert_option, add_made,
  coap_message_option_add,
}

-- The numbers do not go down, from a number on.
abbrev pub IsSorted : ℕ → List CoapOption → Type 0
IsSorted low [] = Unit {0}
IsSorted low (o ∷ os) = (low ≤ o.option_num) × IsSorted o.option_num os

insert_after-IsSorted :
    (low : ℕ) (prev : CoapOption) (ns : List CoapOption) (option : CoapOption)
    → low ≤ prev.option_num
    → prev.option_num ≤ option.option_num
    → IsSorted prev.option_num ns
    → IsSorted low (insert_after prev ns option)
unfolding insert_after
insert_after-IsSorted low prev [] option l p s = (l, (p, tt))
insert_after-IsSorted low prev (n ∷ ns) option l p (a, s) =
    ground (arith, insert_after-IsSorted prev.option_num n ns option)

pub insert_option-IsSorted :
    (ns : List CoapOption) (option : CoapOption)
    → IsSorted 0 ns
    → IsSorted 0 (insert_option ns option)
unfolding insert_option
insert_option-IsSorted [] option s = (omega arith, tt)
insert_option-IsSorted (first ∷ ns) option (a, s) =
    ground (arith, insert_after-IsSorted 0 first ns option)

insert_after-Perm :
    (prev : CoapOption) (ns : List CoapOption) (option : CoapOption)
    → Perm (insert_after prev ns option) (option ∷ prev ∷ ns)
unfolding insert_after
insert_after-Perm prev [] option = Perm.swap option prev []
insert_after-Perm prev (n ∷ ns) option =
    let later =
      Perm.trans (Perm.cons prev (insert_after-Perm n ns option))
        (Perm.swap option prev (n ∷ ns)) in
    elim (Bool-cases (leb prev.option_num option.option_num)) [
      | inl y ↦ elim (Bool-cases (ltb option.option_num n.option_num)) [
        | inl z ↦ rw y (rw z (Perm.swap option prev (n ∷ ns)))
        | inr z ↦ rw y (rw z later)
      ]
      | inr y ↦ rw y later
    ]

insert_option-Perm :
    (ns : List CoapOption) (option : CoapOption) → Perm (insert_option ns option) (option ∷ ns)
unfolding insert_option
insert_option-Perm [] option = Perm.refl (option ∷ [])
insert_option-Perm (first ∷ ns) option =
    elim (Bool-cases (ltb option.option_num first.option_num)) [
      | inl y ↦ rw y (Perm.refl (option ∷ first ∷ ns))
      | inr y ↦ rw y (insert_after-Perm first ns option)
    ]

-- If the options of a message are in the order of their numbers and there is memory, an option that
-- is added leaves them in that order, and adds itself, with its number cut to 16 bits, and nothing else.
pub coap_message_option_add_lem :
    (malloc : ℕ → Bool) (m : CoapMessage) (num : ℕ) (val : List ℕ)
    → IsSorted 0 m.op_list
    → malloc 16 ≡ true
    → malloc (length val) ≡ true
    → (os : List CoapOption) × (coap_message_option_add malloc m num val
        ≡ ok (record m { op_list = os }))
      × IsSorted 0 os
      × Perm os (record { option_num = num % 2 ^ 16; val = val } ∷ m.op_list)
unfolding coap_message_option_add coap_option_init add_made
coap_message_option_add_lem malloc m num val s a b =
    let o : CoapOption = record { option_num = num % 2 ^ 16; val = val } in
    (
      insert_option m.op_list o,
      rw a (rw b refl),
      insert_option-IsSorted m.op_list o s,
      insert_option-Perm m.op_list o,
    )
