-- ===== src/Informer/Executed.antt =====
-- What a module is executed in.
use Prim.Native.String.{◌++◌ as ◌+++◌}
use crossform.Common.{String}
use crossform.Common.Outcome.{Outcome}
use crossform.Repo.State.{Repo}
use crossform.Repo.Host.{Host}
use crossform.Repo.Work
use crossform.Informer.System.{System}
