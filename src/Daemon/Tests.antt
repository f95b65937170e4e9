-- ===== src/Daemon/Tests.antt =====
-- Requests to the daemon: one with the token, and one from a page.
use pelagos.Base.{ℕ, ◌+◌, List, ◌++◌}
use pelagos.Base.State.{Act}
use pelagos.Base.Text.{codes}
use pelagos.Daemon.{Request, bearer}
use pelagos.Daemon.Access.{Guarded, auth_middleware-guards}
use pelagos.Http.{Reply, answer}

abbrev token : List ℕ
token = codes "beef"

-- A handler that counts its calls.
abbrev counting : Request → Act ℕ (Reply ℕ)
counting r k = answer k (k + 1)

abbrev from_evil : Request
from_evil = record {
  method = codes "POST";
  origin = codes "http://evil";
  authorization = bearer ++ token;
}

auth_middleware-guards_example : Guarded token counting from_evil 7
auth_middleware-guards_example = auth_middleware-guards token counting from_evil 7
