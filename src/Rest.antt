-- ===== src/Rest.antt =====
-- restful_api/src/restful_api_server.c: the REST server of the settings. Requests come one at a time
-- from the polling thread; json-c, the file system, `crypt` and `inet_pton` are parameters.
pub mod Json
pub mod Query
pub mod Update
pub mod Session
pub mod FileName
pub mod Settings
pub mod Checks
pub mod Handler
mod Tests
