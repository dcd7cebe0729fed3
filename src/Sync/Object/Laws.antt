-- ===== src/Sync/Object/Laws.antt =====
-- What is on the disk after a download that reports no error.
use mathlib.Core.Logic.{◌↔◌}
use baetyl.Base.Text.{contains}
use baetyl.Spec.{Configuration}
use baetyl.Base.{
  In, List, [], ◌∷◌, false, String, true, none, some, ◌≡◌, ◌⊎◌, inl, inr, arith, Bool, ap, sym,
  subst, ◌∙◌, string_eq, nat_eq, Bool-cases, Option-cases,
}
use baetyl.Base.Dict
use baetyl.Base.Dict.{Dict, lookup-insert}
use baetyl.Sync.Object.{
  Lib, Disk, ConfigurationObject, Response, is_program, keeps_entry, filter_entries, filter_config,
  is_present, unpack_object, store_body, request, download_object,
}

module _ (lib : Lib) where
  -- `FilterConfig` keeps an entry of a configuration: it is no program, the entry is no object, or the
  -- entry's key has the name of the platform in it.
  abbrev pub StaysIn : Configuration → String → Type 0
  StaysIn cfg k =
      (is_program cfg ≡ false)
      ⊎ ((lib.is_config_object k ≡ false) ⊎ (contains k lib.platform ≡ true))

  filter_entries-In :
      (l : List (String × String)) (e : String × String)
      → In e (filter_entries lib l) ↔ (In e l × (keeps_entry lib e ≡ true))
  unfolding filter_entries
  filter_entries-In [] e = (λ h. absurd h, λ h. absurd h.0)
  filter_entries-In (x ∷ l) e =
      let rest = filter_entries-In l e in
      let kept : List (String × String) → Type 0 = λ y. In e y in
      elim (Bool-cases (keeps_entry lib x)) [
        | inl t ↦
            let step : filter_entries lib (x ∷ l) ≡ x ∷ filter_entries lib l = ground arith in
            (
              λ h. elim (subst kept step h) [
                | inl p ↦ (inl p, ap (keeps_entry lib) p ∙ t)
                | inr m ↦ (inr (rest.0 m).0, (rest.0 m).1)
              ],
              λ (m, k).
                  subst kept (sym step) (elim m [ inl p ↦ inl p | inr i ↦ inr (rest.1 (i, k)) ]),
            )
        | inr t ↦
            let step : filter_entries lib (x ∷ l) ≡ filter_entries lib l = ground arith in
            (
              λ h. (let (m, k) = rest.0 (subst kept step h) in (inr m, k)),
              λ (m, k). subst kept (sym step) (elim m [
                | inl p ↦ absurd (different (sym k ∙ ap (keeps_entry lib) p ∙ t))
                | inr i ↦ rest.1 (i, k)
              ]),
            )
      ]
    where
      different : ◌≡◌ {A = Bool} true false → ⊥
      different h = cc

  pub filter_config_exact :
      (cfg : Configuration) (k w : String)
      → In (k, w) (filter_config lib cfg).contents ↔ (In (k, w) cfg.contents × StaysIn cfg k)
  unfolding filter_config keeps_entry
  filter_config_exact cfg k w =
      let entries = filter_entries-In cfg.contents (k, w) in
      elim (Bool-cases (is_program cfg)) [
        | inr p ↦ (λ h. (ground arith, inl p), λ (m, c). ground arith)
        | inl p ↦ (
          λ h. (let (m, t) = entries.0 (ground arith) in (m, ground arith)),
          λ (m, c).
              (let t : keeps_entry lib (k, w) ≡ true = ground arith in
                let i = entries.1 (m, t) in ground arith),
        )
      ]

  -- The disk has the file `name`, and where a checksum is given the content has it.
  abbrev pub Verified : ConfigurationObject → String → Disk → Type 0
  Verified obj name disk =
      (content : String) × (Dict.lookup name disk ≡ some content)
      × ((obj.md5 ≡ "") ⊎ (lib.md5 content ≡ obj.md5))

  is_present-Verified :
      (obj : ConfigurationObject) (name : String) (disk : Disk)
      → is_present lib obj name disk ≡ true
      → Verified obj name disk
  unfolding is_present
  is_present-Verified obj name disk h = elim (Option-cases (Dict.lookup name disk)) [
    | inl p ↦ ground arith
    | inr (content, p) ↦ (content, p, ground arith)
  ]

  store_body-Verified :
      (obj : ConfigurationObject) (dir name : String) (res : Response) (disk disk' : Disk)
      → store_body lib obj dir name res disk ≡ (none, disk')
      → (before : Disk) × Verified obj name before
        × (unpack_object lib obj.unpack name dir before ≡ (none, disk'))
  unfolding store_body
  store_body-Verified obj dir name res disk disk' h =
      let here = lookup-insert name name res.body disk in
      (Dict.insert name res.body disk, (res.body, ground arith, ground arith), ground arith)

  -- After a download without an error, the file was there with the given checksum, if there
  -- is one, and the disk is as before; or it was written with that checksum and then
  -- unpacked.
  pub download_object-Verified :
      (obj : ConfigurationObject) (dir name : String) (disk disk' : Disk)
      → download_object lib obj dir name disk ≡ (none, disk')
      → (Verified obj name disk × (disk' ≡ disk))
        ⊎ ((before : Disk) × Verified obj name before
            × (unpack_object lib obj.unpack name dir before ≡ (none, disk')))
  unfolding download_object
  download_object-Verified obj dir name disk disk' h =
      elim (Bool-cases (is_present lib obj name disk)) [
        | inl p ↦ let v = is_present-Verified obj name disk p in inl (v, ground arith)
        | inr p ↦ elim (Option-cases (request lib obj)) [
          | inl q ↦ ground arith
          | inr (res, q) ↦ inr (store_body-Verified obj dir name res disk disk' (ground arith))
        ]
      ]
