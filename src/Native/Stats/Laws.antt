-- ===== src/Native/Stats/Laws.antt =====
-- Which of the instances the state of an application tells.
use baetyl.Base.{
  String, Bool, true, false, ◌||◌, any, if◌then◌else◌, ◌⊎◌, inl, inr, arith, List, [], ◌∷◌, ◌++◌,
  ◌≡◌, refl, sym, ap, ◌∙◌,
}
use baetyl.Base.Dict
use baetyl.Base.Range.{Range, any_order}
use baetyl.Native.{Status, running, pending, unknown, gen_service_instance_name, Services}
use baetyl.Native.Stats.{
  Lib, InstanceStats, status_from, get_app_status, Instances, of_instance, scan_instances,
  scan_services, of_infos, stats_of,
}

module _ (lib : Lib) (ns app version : String) where
  scan_instances-last :
      (svc last : String) (is : List String) (infos : Instances)
      → scan_instances lib ns app version svc (is ++ (last ∷ [])) infos
        ≡ of_instance lib svc (gen_service_instance_name ns app version svc last)
  unfolding scan_instances
  scan_instances-last svc last [] infos = refl
  scan_instances-last svc last (i ∷ is) infos = scan_instances-last svc last is _

  scan_services-last :
      (svc last : String) (is : List String) (before : Services) (infos : Instances)
      → scan_services lib ns app version (before ++ ((svc, is ++ (last ∷ [])) ∷ [])) infos
        ≡ of_instance lib svc (gen_service_instance_name ns app version svc last)
  unfolding scan_services
  scan_services-last svc last is [] infos = scan_instances-last svc last is infos
  scan_services-last svc last is ((s, js) ∷ before) infos = scan_services-last svc last is before _

  -- Only the last instance of the last service counts: what is told of a version of an
  -- application whose last service has an instance, its state and its instances, is the same
  -- whatever the other services and instances are and do.
  pub stats_of_last :
      (range : Range) (svc last : String) (is : List String) (before : Services)
      → stats_of lib range ns app (version, before ++ ((svc, is ++ (last ∷ [])) ∷ []))
        ≡ stats_of lib range ns app (version, (svc, last ∷ []) ∷ [])
  unfolding stats_of
  stats_of_last range svc last is before =
      ap (of_infos lib range app version)
        (scan_services-last svc last is before [] ∙ sym (scan_services-last svc last [] [] []))

abbrev pub is_unknown_instance : InstanceStats → Bool
is_unknown_instance i = elim (i.status) [ running ↦ false | pending ↦ false | unknown ↦ true ]

abbrev pub is_pending_instance : InstanceStats → Bool
is_pending_instance i = elim (i.status) [ running ↦ false | pending ↦ true | unknown ↦ false ]

abbrev status_by : Bool → Bool → Status
status_by lost waits = if lost then unknown else if waits then pending else running

Status-cases : (s : Status) → (s ≡ running) ⊎ (s ≡ pending) ⊎ (s ≡ unknown)
Status-cases s = ground arith

status_from_exact :
    (waits : Bool) (is : List InstanceStats)
    → status_from waits is
      ≡ status_by (any is_unknown_instance is) (waits || any is_pending_instance is)
unfolding status_from
status_from_exact waits [] = ground arith
status_from_exact waits (i ∷ is) = elim (Status-cases i.status) [
  | inl p ↦ ground (arith, status_from_exact waits is)
  | inr (inl p) ↦ ground (arith, status_from_exact true is)
  | inr (inr p) ↦ ground arith
]

-- Whatever the order, the state of an application is unknown if that of an instance is, else
-- pending if one is pending, and else running.
pub get_app_status_exact :
    (range : Range) (infos : Instances)
    → get_app_status range infos ≡ (
        if any is_unknown_instance (Dict.values infos)
        then unknown
        else if any is_pending_instance (Dict.values infos)
        then pending
        else running)
unfolding get_app_status
get_app_status_exact range infos =
    let l = Dict.values infos in
    status_from_exact false (range.order InstanceStats l)
    ∙ ap (λ b. status_by b (any is_pending_instance (range.order InstanceStats l)))
        (any_order range is_unknown_instance l)
    ∙ ap (λ b. status_by (any is_unknown_instance l) b) (any_order range is_pending_instance l)
