-- ===== src/Storage/Driver.antt =====
-- pkg/storage/driver/driver.go: what Tiller asks of a storage driver. The releases that a driver
-- hands out are values: a later change of one does not reach the driver's own copy.
use helm.Common.{Bytes, Bool, List}
use helm.Release.{Release}
use helm.Result.{Result, Exec}
use helm.Storage.Labels.{Labels}

pub record Driver : Type 1 where
  pub State : Type 0
  -- Queryor
  pub get : Bytes → State → Result Release
  pub list : (Release → Bool) → State → Result (List Release)
  pub query : Labels → State → Result (List Release)
  -- Creator, Updator, Deletor
  pub create : Bytes → Release → Exec State (Unit {0})
  pub update : Bytes → Release → Exec State (Unit {0})
  pub delete : Bytes → Exec State Release
