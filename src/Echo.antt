-- ===== src/Echo.antt =====
-- udp_echo.c and udp_example02.c send every packet back; udp_client_echo.c sends one and checks
-- what comes back.
pub mod Server
pub mod Client
pub mod Example
pub mod Exchange
mod Tests
