-- ===== src/Lib.antt =====
-- Verification of the TecoraBE backend (Go): an HTTP service for field-service companies, with
-- organizations and users that administrators keep, a login through Clerk, work orders, and
-- acceptances, signed forms from which a PDF is made and stored.
--
-- How the parts work together. A request passes the middlewares of internal/middleware and
-- internal/users/context.go, which read the bearer token, have it verified by internal/auth/clerk, read
-- the list of administrators or the user's membership, and leave their results in gin's context. A
-- handler checks the request and calls a repository, or for acceptances a service that calls a
-- repository, a renderer and a bucket of Google Cloud Storage. A repository sends one SQL statement for
-- each call and translates its errors. internal/server/server.go composes the middlewares and the
-- handlers into routes, and internal/app/app.go starts the parts from the configuration.
--
-- Which file models what:
--   Prelude, Text, Regex: lists, integers (Prelude/Int), Unicode texts as lists of code points with the
--     functions of Go's `strings` that the code uses, their bytes (Text/Utf8), numbers as `fmt` prints
--     them (Text/Decimal), and Go's `regexp` as matching by derivatives.
--   Http, Gin: responses, the context that the middlewares share, and what a middleware answers.
--   Db: the tables of db/migrations as lists of rows, one field for a column; a statement as a
--     function of the tables; `query`, which sends it and may lose the request or the answer
--     (`Fault`); the errors of the repositories; `NullableString`; the numbered parameters of the
--     UPDATE statements that are put together at run time (Db/Builder); ORDER BY (Db/Order); and which
--     tables a call leaves alone (Db/Frame), and whose rows it writes (Db/Tenant).
--   Organizations: internal/organizations/{models,repository,handler}.go.
--   Users: internal/users/{models,repository,context,handler}.go; Body is of handler.go.
--   Middleware: internal/middleware/{auth,cors}.go.
--   Clerk: internal/auth/clerk/verifier.go, its keys in Jwks, what these are of a JWKS document in
--     Document and Numbers. `Cache` is the state of a verifier, `Readings` what a call reads from the clock and from the network.
--   Acceptances: internal/acceptances/{models,repository,storage,service,handler}.go. The record
--     `World` holds the database and the bucket, which `Submit` changes in turn.
--   Acceptances/Pdf: internal/acceptances/pdf.go. Words and Draw write text and shapes, Boxes and
--     Signature the sections, Content the page, and Render the file with its objects and their table.
--     Structure says what a PDF file is, apart from the code, and DataUrl what a data URL carries.
--   Acceptances/Storage/Token: the token of the metadata server of storage.go, with its cache.
--   WorkOrders: internal/workorders/{models,repository,handler}.go.
--   Customers: internal/customers/{models,repository}.go, which no route reaches.
--   Server: the routes of internal/server/server.go; `serve` is one request, `serve_all` a run of them;
--     Server/Entry puts CORS and the public route before them (`handle`), Server/Lifetime is how `Run`
--     ends.
--   Config, Health, App: internal/config/{config,dotenv}.go, internal/health/handler.go and
--     internal/app/app.go.
--   Migrations: internal/migrations/runner.go, with what it logs and what it closes.
-- In each, Model holds the data, Repository and Handler the operations, named as in Go but in snake
-- case (`GetBySlug` is `get_by_slug`), with one function for each Go function. A long Go function is
-- cut where it waits for an answer: `submit` of Acceptances/Service goes on in `after_lookup`,
-- `after_create`, `after_render` and `after_upload`. The other modules below a component are named
-- for what they prove. Samples and the modules named Tests hold concrete data and runs.
--
-- What is taken from outside the repository is a parameter: the server's clock, its fresh keys,
-- its reading of UUIDs, its order of texts, which statement fails and how, and whether the
-- connection string asks for pgx's simple protocol (`Server`); lower case beyond ASCII (`fold`); Base64, the reading of JSON, hash and signature (`Codec`); reading
-- a time; the renderer as the service calls it and the wording of an error (`Service`;
-- Service/Printed puts in the renderer of Pdf); the token service and the answers of the storage
-- service (`Bucket`); the answer of the metadata server (`Reading`); the codecs of images and
-- floating-point numbers (`Graphics`, `Float64`); the answers of golang-migrate (`Driver`);
-- `Atoi` and `ParseDuration` (`Go`). A theorem holds for all of them, or names what it asks of
-- them: `IsHonest` asks of the storage service that a status of success means a stored object,
-- and `IsCanonical` of PostgreSQL that it reads a UUID which it has printed as the same one. The
-- body of a request is taken as read into its fields.
--
-- Bounds. Every loop of the code runs over a list, and the model's functions recurse on it. Only
-- the printing of a number runs on fuel, which is the number and one more: `read_digits-decimal`
-- shows that it is enough. A coordinate on the page is an integer number of hundredths of a
-- point, since every one that the code computes outside the scaling of the image is a multiple of
-- a hundredth. Numbers that the code keeps in 64 bits and that can overflow wrap around in the
-- model too: the exponent of a key (a signed `int`), the seconds of `time.Unix` and those of a
-- duration. A time in the database is the natural number that its instant is. Requests are served one after the
-- other.
--
-- What is not modelled: the codecs of images, the pool of connections, the listening socket, the log of
-- the requests, and the mutexes of the two caches, whose calls are taken one after the other.
pub mod Prelude
pub mod Text
pub mod Http
pub mod Regex
pub mod Db
pub mod Organizations
pub mod Users
pub mod Customers
pub mod Gin
pub mod Middleware
pub mod Clerk
pub mod Config
pub mod Health
pub mod App
pub mod Migrations
pub mod Acceptances
pub mod WorkOrders
pub mod Server
pub mod Samples
