-- ===== src/Rest/Refused.antt =====
-- Requests without a valid token, from handlerCaller of server/src/web_server.cc to the answer.
use tp.Common.{◌≡◌, false, ◌⊎◌}
use tp.World.{Platform, World, Outcome, done}
use tp.World.Reads.{Reads}
use tp.World.Returning.{Returning}
use tp.World.Silent.{Silent}
use tp.Rest.Connection.{Connection}
use tp.Rest.Node.{Node}
use tp.Rest.Guarded.{Guarded}
use tp.Rest.Legible.{legible}
use tp.Rest.Authorized.{Authorized, Refusal}
use tp.Rest.Routes.{Answer}

module _ ⦃P : Platform⦄ where
  -- How a request without a valid token ends: nothing but `status` has changed, and it is refused or
  -- not served, or the URL or the query has too few parts for what is read of them.
  pub record Refused (conn : Connection) (w : World) (o : Outcome Answer × World) : Type 0 where
    pub kept : o.1 ≡ record w { status = o.1.status }
    pub ended : (legible conn ≡ false) ⊎ ((a : Answer) × (o.0 ≡ done a) × Refusal a)
