-- ===== src/Gitserve/Unchecked.antt =====
-- Where AuthHandler and Handler read different repositories off one path: a second "/" after the
-- prefix, as %2F in the request's escaped path gives.
use git_castle.Auth.Crypto.{Crypto}
use git_castle.Db.{Db}
