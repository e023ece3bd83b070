-- ===== src/Server/Entry.antt =====
-- What stands before the routes in internal/server/server.go: the middleware `CORS`, which sees every
-- request, also one that no route matches, and the public route for the health of the service.
pub mod Public
use tecora_be.Prelude.{Bool, true, false, List, some, if◌then◌else◌}
use tecora_be.Text.{Text, codes}
use tecora_be.Http.{Response}
use tecora_be.Gin.{Context}
use tecora_be.Middleware.Cors.{Headers, cors}
use tecora_be.Health
use tecora_be.Health.{Health}
use tecora_be.Acceptances.Service.{World}
use tecora_be.Server.Routes.{App, Route, Payload, serve}

-- Where gin's router takes a request; `Ping` succeeds in time or not.
pub data Target : Type 0 where
  health : Bool → Target
  route : Route → Target
  unmatched : Target

-- What is sent: 204 and no body, the health, the answer of a route, or gin's 404.
pub data Reply : Type 0 where
  no_content : Reply
  healthy : Response Health → Reply
  routed : Response Payload → Reply
  not_found : Reply

abbrev pub answer : App → Context → Target → World → Reply × World
answer app c (health pings) w = (healthy (Health.get (codes "tecora-backend") (some pings)), w)
answer app c (route r) w = let (response, w') = serve app c r w in (routed response, w')
answer app c unmatched w = (not_found, w)

-- `CORS` has set the headers; it ends an OPTIONS request, or the chain goes on.
abbrev pub after_cors : Headers × Bool → Reply × World → World → Headers × Reply × World
after_cors (headers, true) a w = (headers, no_content, w)
after_cors (headers, false) (reply, w') w = (headers, reply, w')

unfoldable pub handle : List Text → App → Context → Target → World → Headers × Reply × World
unfolding cors serve Health.get
handle allowed_origins app c target w =
    after_cors (cors allowed_origins c.request) (answer app c target w) w
