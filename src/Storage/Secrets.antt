-- ===== src/Storage/Secrets.antt =====
-- pkg/storage/driver/secrets.go: the driver that keeps each release in a Secret of Kubernetes. The
-- file repeats cfgmaps.go for Secrets, and differs in the error of Create, which names the release in
-- place of the key.
use helm.Common.{Bytes, Bool, List}
use helm.Release.{Release}
use helm.Result.{Result, Exec}
use helm.Storage.Labels.{Labels}
use helm.Storage.Driver.{Driver}
use helm.Storage.ConfigMaps.{
  created_at, Client, Context, new_object, get_release, list_releases, query_releases,
  create_object, update_release, delete_release,
}

module _ (C : Client) (X : Context C) where
  -- Secrets.Create
  unfoldable pub create_secret : Bytes → Release → Exec C.State (Unit {0})
  unfolding new_object
  create_secret key rls s = create_object C X rls.name s (new_object C X key rls (created_at C X s))

  -- Secrets.Get, Secrets.List, Secrets.Query, Secrets.Update, Secrets.Delete
  abbrev pub get_secret : Bytes → C.State → Result Release
  get_secret = get_release C X

  abbrev pub list_secrets : (Release → Bool) → C.State → Result (List Release)
  list_secrets = list_releases C X

  abbrev pub query_secrets : Labels → C.State → Result (List Release)
  query_secrets = query_releases C X

  abbrev pub update_secret : Bytes → Release → Exec C.State (Unit {0})
  update_secret = update_release C X

  abbrev pub delete_secret : Bytes → Exec C.State Release
  delete_secret = delete_release C X

  -- NewSecrets
  abbrev pub secrets : Driver
  secrets = record {
    State = C.State;
    get = get_secret;
    list = list_secrets;
    query = query_secrets;
    create = create_secret;
    update = update_secret;
    delete = delete_secret;
  }
