-- ===== src/Sync/Desire/Tables.antt =====
-- A table of the store after some writes.
use baetyl.Base.{
  String, Bool, true, false, ◌&&◌, some, ◌≡◌, ◌⊎◌, inl, inr, arith, string_eq, subst, sym,
}
use baetyl.Base.Dict
use baetyl.Base.Dict.{Dict, lookup-insert, has-lookup}

-- A table after some writes: an entry that can be read is as it was, no key goes, and each entry
-- was there before or is a new one.
pub record Grows {A : Type 0} (reads : String → Bool) (IsNew : String → A → Type 0)
    (t t' : Dict String A) : Type 0 where
  pub kept :
      (key : String) (a : A)
      → Dict.lookup key t ≡ some a
      → reads key ≡ true
      → Dict.lookup key t' ≡ some a
  pub stays :
      (key : String) (a : A) → Dict.lookup key t ≡ some a → (b : A) × (Dict.lookup key t' ≡ some b)
  pub origin :
      (key : String) (a : A)
      → Dict.lookup key t' ≡ some a
      → (Dict.lookup key t ≡ some a) ⊎ IsNew key a

module _ {A : Type 0} {reads : String → Bool} {IsNew : String → A → Type 0} where
  pub Grows-refl : (t : Dict String A) → Grows reads IsNew t t
  Grows-refl t = record {
    kept = λ key a h r. h;
    stays = λ key a h. (a, h);
    origin = λ key a h. inl h;
  }

  pub Grows-trans :
      {t1 t2 t3 : Dict String A}
      → Grows reads IsNew t1 t2
      → Grows reads IsNew t2 t3
      → Grows reads IsNew t1 t3
  Grows-trans p q = record {
    kept = λ key a h r. q.kept key a (p.kept key a h r) r;
    stays = λ key a h. (let (b, k) = p.stays key a h in q.stays key b k);
    origin = λ key a h. elim (q.origin key a h) [ inl k ↦ p.origin key a k | inr n ↦ inr n ];
  }

  -- A write to a key that is not there, or that cannot be read.
  pub Grows-insert :
      (key : String) (a : A) (t : Dict String A)
      → IsNew key a
      → ((Dict.has key t && reads key) ≡ false)
      → Grows reads IsNew t (Dict.insert key a t)
  Grows-insert key a t new free = record {
    kept = λ k b h r. ground (arith, lookup-insert k key a t, has-lookup key t);
    stays = λ k b h. elim (string_eq.dec k key) [
      | yes e ↦ (a, ground (arith, lookup-insert k key a t))
      | no e ↦ (b, ground (arith, lookup-insert k key a t))
    ];
    origin = λ k b h. elim (string_eq.dec k key) [
      | yes e ↦
          let here : some a ≡ some b = ground (arith, lookup-insert k key a t) in
          let same : a ≡ b = ground arith in
          inr (subst (λ x. IsNew k x) same (subst (λ x. IsNew x a) (sym e) new))
      | no e ↦ inl (ground (arith, lookup-insert k key a t))
    ];
  }
