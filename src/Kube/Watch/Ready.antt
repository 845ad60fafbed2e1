-- ===== src/Kube/Watch/Ready.antt =====
-- When watchUntilReady of pkg/kube/client.go takes a job to be ready.
use helm.Common.Text.{eqb}
use helm.Common.Decimal.{Int64}
use helm.Tiller.SortManifests.{skipped}
use helm.Kube.Api.{
  ConditionStatus, condition_true, condition_false, condition_unknown, Api, Request, from_error,
}
use helm.Result.{ok, Error, Result, err, bind, lift, ◌>>◌}
use helm.Result.{◌>>=◌}
use helm.Common.{
  Bytes, ◌∷◌, List, true, ◌≡◌, [], if◌then◌else◌, codes, All, ◌++◌, refl, ap, false, none, Option,
  some, Bool,
}
use helm.Kube.Infos.{Info}
use helm.Kube.Watch.{
  watch, until, JobCondition, job_complete, job_failed, other_condition, Watches, job_state,
  deleted, WatchEvent, added, modified, error_event, other_event, wait_for_job, is_ready_event,
  watch_info_until_ready,
}

module _ {O : Type 0} (api : Api O) (watches : Watches O) where
  -- A condition says that the job is complete, and none before it that it has failed.
  abbrev pub IsComplete : List (JobCondition × ConditionStatus × Bytes) → Type 0
  IsComplete [] = ⊥
  IsComplete ((job_complete, condition_true, reason) ∷ cs) = Unit
  IsComplete ((job_failed, condition_true, reason) ∷ cs) = ⊥
  IsComplete (c ∷ cs) = IsComplete cs

  job_state-IsComplete :
      (cs : List (JobCondition × ConditionStatus × Bytes)) → job_state cs ≡ ok true → IsComplete cs
  unfolding job_state
  job_state-IsComplete [] h = cc
  job_state-IsComplete ((job_complete, condition_true, reason) ∷ cs) h = tt
  job_state-IsComplete ((job_complete, condition_false, reason) ∷ cs) h = job_state-IsComplete cs h
  job_state-IsComplete ((job_complete, condition_unknown, reason) ∷ cs) h =
      job_state-IsComplete cs h
  job_state-IsComplete ((job_failed, condition_true, reason) ∷ cs) h = cc
  job_state-IsComplete ((job_failed, condition_false, reason) ∷ cs) h = job_state-IsComplete cs h
  job_state-IsComplete ((job_failed, condition_unknown, reason) ∷ cs) h = job_state-IsComplete cs h
  job_state-IsComplete ((other_condition, status, reason) ∷ cs) h = job_state-IsComplete cs h

  -- the events up to the one at which the condition holds
  abbrev pub Stops : (WatchEvent O → Result Bool) → List (WatchEvent O) → Type 0
  Stops cond es =
      (before after : List (WatchEvent O)) × (e : WatchEvent O) × (es ≡ before ++ e ∷ after)
      × All (λ b. cond b ≡ ok false) before
      × (cond e ≡ ok true)

  until-Stops :
      (timed_out : Error) (cond : WatchEvent O → Result Bool) (es : List (WatchEvent O))
      → until timed_out cond es ≡ ok tt
      → Stops cond es
  unfolding until
  until-Stops timed_out cond [] h = cc
  until-Stops timed_out cond (e ∷ es) h = go (cond e) refl h (until-Stops timed_out cond es)
    where
      go :
          (r : Result Bool)
          → cond e ≡ r
          → (bind r λ done. if done then ok tt else until timed_out cond es) ≡ ok tt
          → (until timed_out cond es ≡ ok tt → Stops cond es)
          → Stops cond (e ∷ es)
      go (err x) f k ih = cc
      go (ok true) f k ih = ([], es, e, refl, tt, f)
      go (ok false) f k ih =
          let (before, after, d, split, skipped, at) = ih k in
          (e ∷ before, after, d, ap (λ x. e ∷ x) split, (f, skipped), at)

  -- the object of an event is a complete job, or gone
  abbrev pub IsFinish : WatchEvent O → Type 0
  IsFinish (added obj) =
      (cs : List (JobCondition × ConditionStatus × Bytes)) × (watches.job_conditions obj ≡ ok cs)
      × IsComplete cs
  IsFinish (modified obj) =
      (cs : List (JobCondition × ConditionStatus × Bytes)) × (watches.job_conditions obj ≡ ok cs)
      × IsComplete cs
  IsFinish (deleted obj) = Unit
  IsFinish _ = ⊥

  -- The condition decides nothing: it is neither that the job is complete nor that it has failed.
  abbrev pub IsOpen : JobCondition × ConditionStatus × Bytes → Type 0
  IsOpen (job_complete, condition_true, reason) = ⊥
  IsOpen (job_failed, condition_true, reason) = ⊥
  IsOpen c = Unit

  job_state-IsOpen :
      (cs : List (JobCondition × ConditionStatus × Bytes)) → job_state cs ≡ ok false → All IsOpen cs
  unfolding job_state
  job_state-IsOpen [] h = tt
  job_state-IsOpen ((job_complete, condition_true, reason) ∷ cs) h = cc
  job_state-IsOpen ((job_complete, condition_false, reason) ∷ cs) h = (tt, job_state-IsOpen cs h)
  job_state-IsOpen ((job_complete, condition_unknown, reason) ∷ cs) h = (tt, job_state-IsOpen cs h)
  job_state-IsOpen ((job_failed, condition_true, reason) ∷ cs) h = cc
  job_state-IsOpen ((job_failed, condition_false, reason) ∷ cs) h = (tt, job_state-IsOpen cs h)
  job_state-IsOpen ((job_failed, condition_unknown, reason) ∷ cs) h = (tt, job_state-IsOpen cs h)
  job_state-IsOpen ((other_condition, status, reason) ∷ cs) h = (tt, job_state-IsOpen cs h)

  -- the object of an event is a job that is neither complete nor failed, or the event says nothing
  abbrev pub IsWaiting : WatchEvent O → Type 0
  IsWaiting (added obj) =
      (cs : List (JobCondition × ConditionStatus × Bytes)) × (watches.job_conditions obj ≡ ok cs)
      × All IsOpen cs
  IsWaiting (modified obj) =
      (cs : List (JobCondition × ConditionStatus × Bytes)) × (watches.job_conditions obj ≡ ok cs)
      × All IsOpen cs
  IsWaiting (deleted obj) = ⊥
  IsWaiting (error_event obj) = ⊥
  IsWaiting (other_event obj) = Unit

  wait_for_job-IsOpen :
      (obj : O)
      → wait_for_job api watches obj ≡ ok false
      → (cs : List (JobCondition × ConditionStatus × Bytes)) × (watches.job_conditions obj ≡ ok cs)
        × All IsOpen cs
  unfolding wait_for_job
  wait_for_job-IsOpen obj h = go (watches.job_conditions obj) refl h
    where
      go :
          (r : Result (List (JobCondition × ConditionStatus × Bytes)))
          → watches.job_conditions obj ≡ r
          → bind r job_state ≡ ok false
          → (cs : List (JobCondition × ConditionStatus × Bytes)) × (watches.job_conditions obj
              ≡ ok cs)
            × All IsOpen cs
      go (ok cs) e k = (cs, e, job_state-IsOpen cs k)
      go (err x) e k = cc

  is_ready_event-IsWaiting :
      (info : Info O) (e : WatchEvent O)
      → eqb info.kind (codes "Job") ≡ true
      → is_ready_event api watches info e ≡ ok false
      → IsWaiting e
  unfolding is_ready_event
  is_ready_event-IsWaiting info (added obj) job h = wait_for_job-IsOpen obj (rw job at h)
  is_ready_event-IsWaiting info (modified obj) job h = wait_for_job-IsOpen obj (rw job at h)
  is_ready_event-IsWaiting info (deleted obj) job h = cc
  is_ready_event-IsWaiting info (error_event obj) job h = cc
  is_ready_event-IsWaiting info (other_event obj) job h = tt

  All-IsWaiting :
      (info : Info O) (es : List (WatchEvent O))
      → eqb info.kind (codes "Job") ≡ true
      → All (λ b. is_ready_event api watches info b ≡ ok false) es
      → All IsWaiting es
  All-IsWaiting info [] job h = tt
  All-IsWaiting info (e ∷ es) job (h, hs) =
      (is_ready_event-IsWaiting info e job h, All-IsWaiting info es job hs)

  wait_for_job-IsComplete :
      (obj : O)
      → wait_for_job api watches obj ≡ ok true
      → (cs : List (JobCondition × ConditionStatus × Bytes)) × (watches.job_conditions obj ≡ ok cs)
        × IsComplete cs
  unfolding wait_for_job
  wait_for_job-IsComplete obj h = go (watches.job_conditions obj) refl h
    where
      go :
          (r : Result (List (JobCondition × ConditionStatus × Bytes)))
          → watches.job_conditions obj ≡ r
          → bind r job_state ≡ ok true
          → (cs : List (JobCondition × ConditionStatus × Bytes)) × (watches.job_conditions obj
              ≡ ok cs)
            × IsComplete cs
      go (ok cs) e k = (cs, e, job_state-IsComplete cs k)
      go (err x) e k = cc

  ready-IsFinish :
      (info : Info O) (e : WatchEvent O)
      → eqb info.kind (codes "Job") ≡ true
      → is_ready_event api watches info e ≡ ok true
      → IsFinish e
  unfolding is_ready_event
  ready-IsFinish info (added obj) job h = wait_for_job-IsComplete obj (rw job at h)
  ready-IsFinish info (modified obj) job h = wait_for_job-IsComplete obj (rw job at h)
  ready-IsFinish info (deleted obj) job h = tt
  ready-IsFinish info (error_event obj) job h = cc
  ready-IsFinish info (other_event obj) job h = cc

  -- A job is taken to be ready only at an event of the watch that shows it complete, by a condition
  -- before which none says that it has failed, or that it was deleted; and every event before
  -- that one says nothing, or showed the job with no condition that it is complete or has failed:
  -- none was an error or a deletion.
  pub job-IsFinish :
      (timeout : Int64) (info : Info O) (s t : List (Request O))
      → eqb info.kind (codes "Job") ≡ true
      → watch_info_until_ready api watches timeout info s ≡ (ok tt, t)
      → (before after : List (WatchEvent O)) × (e : WatchEvent O) × (watches.events s info timeout
          ≡ before ++ e ∷ after)
        × All IsWaiting before
        × IsFinish e
  unfolding watch_info_until_ready ◌>>=◌
  job-IsFinish timeout info s t job h = go (watches.selector_error info.name) h
    where
      go :
          (o : Option Error)
          → (lift (from_error o)
                >> watch api watches (is_ready_event api watches info) timeout info)
              s
            ≡ (ok tt, t)
          → (before after : List (WatchEvent O)) × (e : WatchEvent O) × (watches.events s info
                timeout
              ≡ before ++ e ∷ after)
            × All IsWaiting before
            × IsFinish e
      go (some x) k = cc
      go none k =
          let (before, after, e, split, skipped, at) =
            until-Stops api.err_wait_timeout (is_ready_event api watches info)
              (watches.events s info timeout) (ap (λ x. x.0) k) in
          (
            before,
            after,
            e,
            split,
            All-IsWaiting info before job skipped,
            ready-IsFinish info e job at,
          )
