-- ===== src/Lib.antt =====
-- mcp-grand-lyon is a server that answers questions about transport and services in Lyon: an MCP
-- adapter and a command line (internal/adapter, internal/cli) call the services of
-- internal/service, which ask the providers (internal/providers, over internal/httpclient) and the
-- SQLite store (internal/storage), and answer with an envelope of internal/model.
--
-- The modules follow the packages.
-- * HttpClient is internal/httpclient/client.go. Flights has the sharing of one request by
--   concurrent callers (joinFlight, runFlight, leaveFlight): each holds the mutex, so World takes
--   them as steps of one shared state, in any order. Retry has the attempts of one request (do,
--   waitForRetry, waitRetryDelay, parseRetryAfter), Transfer the bounded reading of an answer and
--   the publication of a download (validateResponse, readResponse, writeDownload, getDirect,
--   Download). Origins has the URLs that a request or a redirect may go to and the credentials it
--   carries (validateURL, checkRedirect, origin), over net/url's parser as a parameter.
-- * Model is internal/model: Envelope the envelope and its warnings, PlaceRef the validation of a
--   place reference, Float the points and their distance, Records the domain records, Line is
--   LineMatches, GtfsTime is ParseGTFSTime and Names is Normalize.
-- * Service is internal/service: Freshness is freshness.go, Journey is journey.go: its
--   children App, Velov, Transit and ParkAndRide have the scores and the builders of the options,
--   Trips the whole of TripOptions. Parking is parking.go, VelovStations is VelovStations of
--   velov.go. Places is place.go: the search and ResolvePlace, and in its child Resolve the
--   resolution of references. Departures is transit.go, with the handler in its child Handler.
--   Mobility is mobility.go, with MobilityStatus in its child Status. Accessibility is
--   accessibility.go: the steps for one stop, and in its child Check the whole check. Facilities is
--   facilities.go. Waste is waste.go: the taxonomy and the classes, and WasteDropoff in its child
--   Handler. Environment is environment.go.
--   Dispatch is Call of dispatch.go, over JSON values; the decoding of the arguments and the
--   schemas are parameters. Briefing is the comparison of snapshots of briefing.go, over the same
--   JSON values: Values reads them and removes volatile fields, Changes lists the changes.
-- * Storage is internal/storage: Window has the SQL window sums, Retention is retention.go,
--   Timetable the scheduled departures of gtfs.go.
-- * Base has what they share: Boolean tests, lists, Go's signed integers, sort.SliceStable,
--   the loops that keep the first value of each key, and the functions of package strings on texts.
-- The services call Freshness and build Model's envelopes; Transfer reads what Retry receives.
--
-- An instant is a number of nanoseconds since Go's zero time, so IsZero is a comparison with 0;
-- a duration is assumed to fit an int64 except where wrap_int64 is written, as it is in the limit
-- maxBytes+1 of a body. A signed Go int is ℤ.
-- float64 is the record Model.Float of a type and its operations, without laws. A pointer to
-- a shared object is a number in a store. An SQL statement is the function on lists of rows that
-- it states. The numbers that a message prints are left out.
--
-- What is outside the code is a parameter: strings.ToLower, strings.EqualFold, http.ParseTime, the
-- transport, the clock, the random numbers, the operations of the file system, the outcome of SQL
-- statements and of contexts, and the provider. Two loops run on fuel: that of do, whose fuel is its
-- bound of three attempts, and the one that trims the prefixes of a line's name, whose fuel is the
-- length of the name, since each round but the last shortens it. Calendar days are numbers; the
-- instant of a day's noon in Paris, the day of an instant and a day's text are parameters.
--
-- Not modelled: the adapter and the command line, which are input and output; the decoding of
-- upstream data in internal/providers; configuration and file permissions; the permits of the HTTP
-- client and its connection set-up; SQL over single rows; the gathering of a
-- briefing's facts.
mod Base
pub mod Model
pub mod HttpClient
pub mod Service
pub mod Storage
