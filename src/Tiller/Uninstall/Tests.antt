-- ===== src/Tiller/Uninstall/Tests.antt =====
-- The theorems on uninstalling, applied to concrete requests.
use helm.Releaseutil.Latest.{IsLatest}
use helm.Tiller.Hooks.{exec_hook}
use helm.Storage.Records.{new_record}
use helm.Common.{Bool, true, false, ◌≡◌, refl, List, [], ◌∷◌}
use helm.Common.Decimal.{int64}
use helm.Release.{Release}
use helm.Result.{◌>>=◌, Result, ok, err}
use helm.Storage.Memory.{memory, query}
use helm.Storage.Store
use helm.Tiller.Server.{Server}
use helm.Tiller.Samples.{first_release, second_release, world, server_with, web}
use helm.Tiller.Uninstall.{UninstallRequest, UninstallResponse, uninstall_release}
use helm.Tiller.Uninstall.Outcome.{IsDeleted, uninstall-IsDeleted}

abbrev request : UninstallRequest
request = record {
  name = web;
  disable_hooks = false;
  purge = false;
  timeout = int64 300;
  description = [];
}

abbrev two : Server memory
two = server_with (first_release ∷ second_release ∷ [])

abbrev response : Result UninstallResponse → UninstallResponse
response (ok res) = res
response (err e) = record { release = first_release; info = [] }

abbrev is_ok : Result UninstallResponse → Bool
is_ok (ok r) = true
is_ok (err e) = false

-- a run that returns a response
answered :
    (x : Result UninstallResponse × Server memory) → is_ok x.0 ≡ true → x ≡ (ok (response x.0), x.1)
answered (ok r, s) h = refl
answered (err e, s) h = cc

uninstalled : Result UninstallResponse × Server memory
unfolding uninstall_release
uninstalled = uninstall_release memory world request two

uninstalled_ok : is_ok uninstalled.0 ≡ true
unfolding uninstalled ◌>>=◌ query new_record exec_hook
uninstalled_ok = refl

uninstall-IsDeleted_example :
    (rels : List Release) × (rel : Release) × (Store.history memory web two.store ≡ ok rels)
    × IsLatest rels rel
    × IsDeleted rel (response uninstalled.0)
unfolding uninstalled
uninstall-IsDeleted_example =
    uninstall-IsDeleted memory world request two uninstalled.1 (response uninstalled.0)
      (answered uninstalled uninstalled_ok)
