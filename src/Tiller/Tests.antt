-- ===== src/Tiller/Tests.antt =====
-- The theorems on Tiller's operations, applied to concrete requests.
use helm.Tiller.Names.{uniq_name}
use helm.Storage.Store.{last, make_key}
use helm.Common.Text.{split2}
use helm.Storage.Records.{new_record}
use helm.Common.{codes, Bool, true, false, not, ◌≡◌, refl, List, [], ◌∷◌, ◌++◌, map, Perm}
use helm.Common.Sort.{IsOrdered}
use helm.Common.Decimal.{int32, int64, atoi, itoa}
use helm.Release.{Release, pending_upgrade, pre_rollback}
use helm.Result.{Error, ◌>>=◌, Result, ok, err}
use helm.Storage.Memory.{memory, query, get, create, update}
use helm.Tiller.Server.{Server, Manifest, kube_get, record_release}
use helm.Tiller.Samples.{
  first_release, second_release, world, server_with, empty_server, rollback_request,
  install_request_of, update_request_of, sample, kept_file, plain_file, migrate,
}
use helm.Tiller.Rollback.{rollback_release}
use helm.Tiller.Rollback.Outcome.{IsRolledBack, rollback-IsRolledBack}
use helm.Tiller.Install.{install_release}
use helm.Tiller.Install.Prepared.{IsPrepared}
use helm.Tiller.Install.Outcome.{IsInstalled, install-IsInstalled}
use helm.Tiller.DryRun.{IsDry, rollback_dry, install-IsDry, update-IsDry}
use helm.Tiller.Update.{update_release}
use helm.Tiller.Update.Outcome.{IsUpgraded, update-IsUpgraded}
use helm.Tiller.Update.Lock.{update_release_pending}
use helm.Tiller.Hooks.{exec_hook, Placed, stamp}
use helm.Tiller.Hooks.Script.{called, event_calls, exec_hook-calls}
use helm.Tiller.Modules.{delete_release}
use helm.Tiller.Modules.Keep.{select, is_kept, deletions, delete_release-calls}
use helm.Tiller.Names.Laws.{IsAccepted, uniq_name-IsAccepted}
use helm.Tiller.KindSorter.{sort_by_kind, install_order}
use helm.Tiller.KindSorter.Order.{sort_by_kind-IsOrdered}
use helm.Tiller.KindSorter.Order
use helm.Tiller.Hooks.Weight
use helm.Tiller.Hooks.Weight.{Fires}

abbrev returned : Result Release → Release
returned (ok r) = r
returned (err e) = first_release

abbrev is_ok : Result Release → Bool
is_ok (ok r) = true
is_ok (err e) = false

-- a run that returns a release
ran : (x : Result Release × Server memory) → is_ok x.0 ≡ true → x ≡ (ok (returned x.0), x.1)
ran (ok r, s) h = refl
ran (err e, s) h = cc

abbrev two : Server memory
two = server_with (first_release ∷ second_release ∷ [])

rolled_back : Result Release × Server memory
unfolding rollback_release
rolled_back = rollback_release memory world (rollback_request false) two

rolled_back_ok : is_ok rolled_back.0 ≡ true
unfolding rolled_back rollback_release ◌>>=◌ query new_record get split2 atoi create exec_hook stamp
    update
rolled_back_ok = refl

rollback-IsRolledBack_example :
    IsRolledBack memory world (rollback_request false) two (returned rolled_back.0) rolled_back.1
unfolding rolled_back
rollback-IsRolledBack_example =
    rollback-IsRolledBack memory world (rollback_request false) two rolled_back.1
      (returned rolled_back.0) refl (ran rolled_back rolled_back_ok)

rollback_dry_example : (rollback_release memory world (rollback_request true) two).1 ≡ two
rollback_dry_example = rollback_dry memory world (rollback_request true) two refl

installed : Result Release × Server memory
unfolding install_release
installed = install_release memory world (install_request_of false) empty_server

installed_ok : is_ok installed.0 ≡ true
unfolding installed query ◌>>=◌ exec_hook stamp
installed_ok = refl

install-IsInstalled_example :
    (r : Release) × (u : Server memory) × IsPrepared memory world
      (install_request_of false)
      empty_server
      u
      r
    × IsInstalled memory world
        (install_request_of false)
        u.store
        r
        (returned installed.0)
        installed.1
unfolding installed
install-IsInstalled_example =
    install-IsInstalled memory world (install_request_of false) empty_server installed.1
      (returned installed.0) refl (ran installed installed_ok)

install-IsDry_example :
    IsDry memory empty_server
      (install_release memory world (install_request_of true) empty_server).1
install-IsDry_example = install-IsDry memory world (install_request_of true) empty_server refl

update-IsDry_example : IsDry memory two (update_release memory world (update_request_of true) two).1
update-IsDry_example = update-IsDry memory world (update_request_of true) two refl

pending_release : Release
pending_release = sample (int32 3) pending_upgrade

locked : Server memory
unfolding pending_release
locked = server_with (second_release ∷ pending_release ∷ [])

update_release_pending_example :
    (e : Error) × (update_release memory world (update_request_of false) locked ≡ (err e, locked))
unfolding locked query new_record last
update_release_pending_example =
    update_release_pending memory world (update_request_of false) locked pending_release refl refl
      refl

hooked : Result (Result (Unit {0}) × Release) × Server memory
unfolding exec_hook
hooked = exec_hook memory world first_release (codes "pre-rollback") (int64 300) two

stamped : Result (Result (Unit {0}) × Release) → Release
stamped (ok (x, r)) = r
stamped (err e) = first_release

all_ran : Result (Result (Unit {0}) × Release) → Bool
all_ran (ok (ok _, r)) = true
all_ran (ok (err e, r)) = false
all_ran (err e) = false

hooks_ran_eq :
    (x : Result (Result (Unit {0}) × Release) × Server memory)
    → all_ran x.0 ≡ true
    → x ≡ (ok (ok tt, stamped x.0), x.1)
unfolding all_ran stamped
hooks_ran_eq (ok (ok _, r), t) h = refl
hooks_ran_eq (ok (err e, r), t) h = cc
hooks_ran_eq (err e, t) h = cc

hooked_ok : all_ran hooked.0 ≡ true
unfolding hooked all_ran ◌>>=◌
hooked_ok = refl

exec_hook-calls_example :
    (chosen hs : List Placed) × Fires pre_rollback 0 first_release.hooks chosen
    × Perm hs chosen
    × IsOrdered Weight.MayPrecede hs
    × (hooked.1
        ≡ called memory two (event_calls first_release (codes "pre-rollback") (int64 300) hs))
unfolding hooked
exec_hook-calls_example =
    exec_hook-calls memory world first_release (codes "pre-rollback") pre_rollback (int64 300) two
      hooked.1 (stamped hooked.0) refl (hooks_ran_eq hooked hooked_ok)

abbrev files : List Manifest
files = kept_file ∷ plain_file ∷ []

delete_release-calls_example :
    (delete_release memory world first_release two).1
    ≡ called memory two (
        map (λ m. kube_get (codes "ns") m.content) (select is_kept files)
        ++ deletions (codes "ns") (select (λ m. not (is_kept m)) files))
delete_release-calls_example = delete_release-calls memory world first_release two files refl

uniq_name-IsAccepted_example : IsAccepted memory [] false empty_server.store (codes "fuzzy")
unfolding uniq_name get split2 make_key itoa atoi
uniq_name-IsAccepted_example =
    uniq_name-IsAccepted memory world [] (codes "fuzzy") false empty_server refl

sort_by_kind-IsOrdered_example :
    Perm (sort_by_kind files install_order) files
    × IsOrdered (Order.MayPrecede install_order) (sort_by_kind files install_order)
sort_by_kind-IsOrdered_example = sort_by_kind-IsOrdered files install_order

abbrev heavy : List Placed
heavy = (0, migrate) ∷ (1, record migrate { weight = int32 1 }) ∷ []

upgraded_release : Result Release × Server memory
unfolding update_release
upgraded_release = update_release memory world (update_request_of false) two

upgraded_ok : is_ok upgraded_release.0 ≡ true
unfolding upgraded_release ◌>>=◌ query new_record create exec_hook update record_release
upgraded_ok = refl

update-IsUpgraded_example :
    IsUpgraded memory world
      (update_request_of false)
      two
      (returned upgraded_release.0)
      upgraded_release.1
unfolding upgraded_release
update-IsUpgraded_example =
    update-IsUpgraded memory world (update_request_of false) two (returned upgraded_release.0)
      upgraded_release.1 refl refl (ran upgraded_release upgraded_ok)
