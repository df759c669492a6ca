-- ===== src/Client.antt =====
-- The client's side of the protocol: client.go, client_tcp.go and client_requests.go.
pub mod Trailer
pub mod Items
pub mod Requests
pub mod AckRoundTrip
