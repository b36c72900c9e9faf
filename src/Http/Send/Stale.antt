-- ===== src/Http/Send/Stale.antt =====
-- What is sent where the socket blocks at the first write. (core_http.c, core_server.c)
