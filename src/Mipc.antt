-- ===== src/Mipc.antt =====
-- mipc.py: packets of JSON on a socket, the client of the control socket, and the component server.
pub mod Packet
pub mod Line
pub mod Call
pub mod Server
