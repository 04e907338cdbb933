-- ===== src/Sys.antt =====
-- The settings of the operating system (src/soem_wrapper/src/utils/sys_utils.cpp): which threads and
-- interrupts the data cycle's CPU runs, and the delays of the network device.
pub mod Words
pub mod Threads
pub mod Irqs
pub mod Nic
