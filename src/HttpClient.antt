-- ===== src/HttpClient.antt =====
-- internal/httpclient/client.go: the HTTP client. Flights is the sharing of one upstream request
-- by concurrent callers, Retry the attempts of one request, Transfer the reading of
-- its answer, Origins where a request may go.
pub mod Types
pub mod Retry
pub mod Transfer
pub mod Flights
pub mod Origins
mod Tests
