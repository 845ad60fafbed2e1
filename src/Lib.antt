-- ===== src/Lib.antt =====
-- Helm 2: the release manager Tiller (pkg/tiller), the storage of releases (pkg/storage), the client
-- of Kubernetes (pkg/kube), the values of charts (pkg/chartutil), value strings (pkg/strvals), ignore
-- rules (pkg/ignore), and the indexes of chart repositories (pkg/repo, pkg/resolver).
--
-- Tiller serves requests to install, update, roll back and uninstall releases. Each operation is a
-- function from the server's state to a result and a new state. The state (Tiller.Server) has the
-- store of releases and the calls of the cluster made so far. An operation that fails keeps what it
-- did before it failed, as the code does.
--
-- The parts and their files:
--   Common          helpers: native numbers, byte strings, `strings` and `strconv` of Go as far as
--                   they are used, sorting by a `Less`
--   Release         the release record of pkg/proto/hapi/release
--   Kube            pkg/kube: Infos (result.go), Api (the API server and the libraries), Perform
--                   (perform, Delete), Wait (wait.go, Create), Patch (updateResource), Update
--                   (UpdateWithOptions), Watch (the watches of hooks, pods and definitions);
--                   Requests: what actions ask of the API server
--   Releasetesting  pkg/releasetesting, pkg/hooks: the tests of a release; Run: their run
--   Lint            pkg/lint/support; Rules: those on Chart.yaml and values.yaml in pkg/lint/rules
--   Repo            pkg/repo/index.go (Index), pkg/repo/repo.go (File), pkg/resolver/resolver.go
--                   (Resolver), over the library for versions (Semver)
--   Result          errors with their messages, which the code searches for texts; actions on a
--                   state; Result.Frame and Result.Ends: rules on what actions keep and return
--   Releaseutil     pkg/releaseutil: filters and sorts
--   Storage.Labels, Storage.Records, Storage.Memory, Storage.Driver
--                   pkg/storage/driver: the driver interface and the in-memory driver
--   Storage.Store   pkg/storage/storage.go, over any driver; Storage.Key: its keys
--   Tiller.Server, Tiller.Names
--                   pkg/tiller/release_server.go
--   Tiller.Hooks    execHook of pkg/tiller/release_server.go, pkg/tiller/hook_sorter.go
--   Tiller.Modules  LocalReleaseModule and DeleteRelease of pkg/tiller/release_modules.go,
--                   pkg/tiller/resource_policy.go, pkg/kube/resource_policy.go
--   Tiller.Install, Tiller.Update, Tiller.Rollback, Tiller.Uninstall
--                   pkg/tiller/release_install.go and so on, one handler each; Tiller.Upgrade has
--                   the values and the releases of an update
--   Tiller.KindSorter
--                   pkg/tiller/kind_sorter.go
--   Tiller.SortManifests
--                   sortManifests of pkg/tiller/hooks.go, SplitManifests of
--                   pkg/releaseutil/manifest.go
--   Tiller.List, Tiller.Paging
--                   pkg/tiller/release_list.go: the handler; its pages and messages
--   Tiller.Reading  pkg/tiller/release_status.go, pkg/tiller/release_content.go,
--                   pkg/tiller/release_history.go
--   Storage.ConfigMaps, Storage.Secrets, Storage.Encoding
--                   pkg/storage/driver/cfgmaps.go, secrets.go and util.go, over a client of the API
--                   server
--   Chartutil       pkg/chartutil/values.go: Value (the data), Tables (coalesceTables, MergeInto),
--                   Coalesce (CoalesceValues), Paths (Table, PathValue), Render; Requirements: the
--                   tags and conditions of pkg/chartutil/requirements.go
--   Strvals         pkg/strvals/parser.go: Runes, Values and Parser; Print: the text of given paths
--                   and values
--   Ignore          pkg/ignore/rules.go
-- Functions have the names of the source, in lower case: Storage.removeLeastRecent is
-- `remove_least_recent`, ReleaseServer.performRollback is `perform_rollback`. The source's inner
-- blocks are functions of their own where a proof speaks of them.
--
-- Install, update and uninstall render charts and merge values through a parameter; Chartutil and
-- Strvals model what the client and the renderer do with values, and are not plugged into it.
--
-- The world is a parameter (Tiller.Server.Env): the cluster's answer to a call, which may depend on
-- all calls before it, the clock, the generator of names, the rendering of charts, the merging of
-- YAML values, and the split of a manifest in the order of deletion. What a rendering knows of the
-- cluster it has from the calls before it, those of `capabilities` among them. A driver is a parameter
-- (Storage.Driver) of the store and of all operations; the in-memory driver is one, and those for
-- ConfigMaps and Secrets are others, over a client of the API server. The parse of YAML, regular
-- expressions, filepath.Match, gzip, base64 and protobuf are parameters where they are used.
--
-- Numbers: a version is an int32, kept as the number plus 2^31, with wrap-around; an int64 likewise
-- with 2^63. MaxHistory 0 stands for 0 or less. `search_version` has as fuel one more than the length
-- of the records, and each of its rounds makes the searched part shorter. The parser of
-- value strings has as fuel one more than the length of the text, and each of its calls reads a rune.
--
-- What differs from the running program: a release that a driver hands out is a value, as it is for
-- ConfigMaps, Secrets and SQL; that the in-memory driver hands out pointers to its own records is not
-- modelled. A response that comes with an error is dropped, as gRPC does. `sort.Sort` is an insertion
-- sort. Iteration over a map takes the order of the list that stands for it. `%q` is right for texts
-- without control characters. Logging is left out.
--
-- The Kubernetes client (Kube.Update and so on) stands below the calls of Tiller.Server and is not
-- plugged into them either. Its state is the list of the requests made so far. perform starts the
-- actions of resources of one kind at once; they run here in the order of the list. How often
-- wait.Poll tries a condition is a parameter, as it depends on the clock.
--
-- Not modelled: the rendering of templates, the walk over requirements with aliases and imported
-- values, charts' files and archives, the SQL driver, the handler of release tests,
-- Rudder, the printing of the Kubernetes client, the Helm client, downloads, the lint of
-- templates, plugins and provenance.
pub mod Chartutil
pub mod Common
pub mod Ignore
pub mod Kube
pub mod Lint
pub mod Release
pub mod Repo
pub mod Result
pub mod Releasetesting
pub mod Releaseutil
pub mod Storage
pub mod Strvals
pub mod Tiller
