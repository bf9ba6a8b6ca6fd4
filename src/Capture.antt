-- ===== src/Capture.antt =====
-- internal/capture: the packet filter. The capture backends themselves are system calls.
pub mod Bpf
