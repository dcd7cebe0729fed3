-- ===== src/Message/Laws.antt =====
-- The two outcomes of a call.
use baetyl.Base.{String, ◌≡◌, ◌⊎◌, inl, inr, refl}
use baetyl.Message.{Try, done, failed}

pub Try-cases :
    {A : Type 0} (t : Try A) → ((e : String) × (t ≡ failed e)) ⊎ ((a : A) × (t ≡ done a))
Try-cases (failed e) = inl (e, refl)
Try-cases (done a) = inr (a, refl)

pub done-inj : {A : Type 0} {a b : A} → done a ≡ done b → a ≡ b
done-inj h = cc
