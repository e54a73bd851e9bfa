-- ===== src/Channels.antt =====
-- The channels of src/Tcp.cpp, src/Uart.cpp and src/Udp.cpp, and src/CommManage.cpp, which opens them.
pub mod Tcp
pub mod Retries
pub mod Uart
pub mod Udp
pub mod Manage
pub mod Display
