-- ===== src/Tests/Engine.antt =====
-- engine on small lists of applications.
use baetyl.Base.{
  String, ◌<>◌, true, false, none, some, List, [], ◌∷◌, ◌≡◌, ◌⊎◌, ne_of_test, inl, inr, refl, sym,
  ap, ◌∙◌, arith, In, string_eq, nat_eq,
}
use baetyl.Base.Dict
use baetyl.Base.Range.{insertion_order}
use baetyl.Base.Text.{contains}
use baetyl.Keys.{make_key}
use baetyl.Keys.Laws.{make_key_inj, make_key_collides}
use baetyl.Spec.{AppInfo, Application, other_workload}
use baetyl.Engine.Plan.{get_delete_and_update}
use baetyl.Engine.Plan.Laws.{last_named, update_exact, delete_exact}
use baetyl.Engine.Plan.Reach.{Tells, carried_out, plan_reaches_desired}
use baetyl.Engine.Filter.{filter_app_like, filter_app_not_like}
use baetyl.Engine.Filter.Laws.{core_init_split}
use baetyl.Engine.Align.{align_apps}
use baetyl.Engine.Align.Exact.{Aligned, align_apps_exact}
use baetyl.Engine.Collide.MultiApp.{check_multi_app_port}
use baetyl.Engine.Collide.MultiApp.Safety.{Claims, check_multi_app_port_safe}

abbrev app : String → String → AppInfo
app n v = record { name = n; version = v }

abbrev desires : List AppInfo
desires = app "a" "2" ∷ app "b" "1" ∷ []

abbrev reports : List AppInfo
reports = app "a" "1" ∷ app "c" "1" ∷ []

reports_tell : Tells reports "a" (some "1")
unfolding string_eq
reports_tell = record {
  present = λ r i e. elim i [
    | inl p ↦ ap (λ (x : AppInfo). some x.version) (sym p)
    | inr i ↦ elim i [
      | inl p ↦ absurd (ne_of_test "c" "a" refl (ap (λ (x : AppInfo). x.name) (sym p) ∙ e))
      | inr x ↦ absurd x
    ]
  ];
  missing = λ h. cc;
}

plan_reaches_desired_example :
    let (del, update) = get_delete_and_update desires reports in
    carried_out (Dict.lookup "a" del) (Dict.lookup "a" update) (some "1") ≡ some "2"
unfolding last_named string_eq
plan_reaches_desired_example = plan_reaches_desired desires reports "a" (some "1") reports_tell

update_exact_example :
    Dict.lookup "a" (get_delete_and_update desires reports).1 ≡ some (app "a" "2")
unfolding last_named string_eq
update_exact_example = update_exact desires reports "a"

delete_exact_example :
    Dict.lookup "c" (get_delete_and_update desires reports).0 ≡ some (app "c" "1")
unfolding last_named string_eq
delete_exact_example = delete_exact desires reports "c"

align_apps_exact_example :
    Aligned reports
      (app "c" "2" ∷ app "a" "2" ∷ app "c" "3" ∷ [])
      (align_apps insertion_order reports (app "c" "2" ∷ app "a" "2" ∷ app "c" "3" ∷ []))
align_apps_exact_example =
    align_apps_exact insertion_order (app "c" "2") reports (app "a" "2" ∷ app "c" "3" ∷ [])

core_init_split_example :
    (¬ (
      In
        (app "baetyl-core" "1")
        (filter_app_not_like (app "baetyl-core" "1" ∷ []) (some ("baetyl-core" ∷ [])))
      × In
          (app "baetyl-core" "1")
          (filter_app_like (app "baetyl-core" "1" ∷ []) (some ("baetyl-core" ∷ [])))))
    × (In
          (app "baetyl-core" "1")
          (filter_app_not_like (app "baetyl-core" "1" ∷ []) (some ("baetyl-core" ∷ [])))
        ⊎ ((b : AppInfo) × (filter_app_like (app "baetyl-core" "1" ∷ []) (some ("baetyl-core" ∷ []))
              ≡ b ∷ [])
            × (contains b.name "baetyl-core" ≡ true)))
core_init_split_example =
    core_init_split (app "baetyl-core" "1") "baetyl-core" (app "baetyl-core" "1" ∷ []) (inl refl)

make_key_inj_example : (◌≡◌ {A = String} "app" "app") × (◌≡◌ {A = String} "v-1" "v-1")
unfolding string_eq
make_key_inj_example =
    make_key_inj "application" "app" "app" "v-1" "v-1" (ne_of_test "app" "" refl)
      (ne_of_test "app" "" refl) (ne_of_test "v-1" "" refl) (ne_of_test "v-1" "" refl) refl refl

make_key_collides_example :
    make_key "config" ("a" <> "-" <> "b") "c" ≡ make_key "config" "a" ("b" <> "-" <> "c")
unfolding string_eq
make_key_collides_example =
    make_key_collides "config" "a" "b" "c" (ne_of_test "a" "" refl) (ne_of_test "c" "" refl)

-- Two applications that want one port of the host.
abbrev server : String → Application
server n = record {
  name = n;
  version = "1";
  namespace = "";
  labels = [];
  app_type = "container";
  system = false;
  workload = other_workload "deployment";
  replica = 1;
  update_time = 0;
  services =
      record {
        name = "web";
        replica = 1;
        ports = record { host_port = 80 } ∷ [];
        volume_mounts = [];
        env = [];
      }
      ∷ [];
  volumes = [];
}

abbrev listed : List AppInfo
listed = app "a" "1" ∷ app "b" "1" ∷ []

abbrev servers : Dict.Dict String Application
servers = ("a", server "a") ∷ ("b", server "b") ∷ []

a-Claims : Claims listed servers 80 "a"
unfolding Dict.lookup string_eq nat_eq
a-Claims = record {
  info = app "a" "1";
  app = server "a";
  listed = inl refl;
  info_name = refl;
  app_name = refl;
  found = refl;
  exposed = refl;
}

b-Claims : Claims listed servers 80 "b"
unfolding Dict.lookup string_eq nat_eq
b-Claims = record {
  info = app "b" "1";
  app = server "b";
  listed = inr (inl refl);
  info_name = refl;
  app_name = refl;
  found = refl;
  exposed = refl;
}

check_multi_app_port_safe_example :
    let c = check_multi_app_port insertion_order listed servers [] (("b", app "b" "1") ∷ []) in
    ((Dict.lookup "a" c.apps ≡ none) × (Dict.lookup "a" c.update ≡ none))
    ⊎ ((Dict.lookup "b" c.apps ≡ none) × (Dict.lookup "b" c.update ≡ none))
unfolding string_eq
check_multi_app_port_safe_example =
    check_multi_app_port_safe insertion_order listed servers [] (("b", app "b" "1") ∷ []) 80 "a" "b"
      (omega arith) (ne_of_test "a" "b" refl) a-Claims b-Claims
