-- ===== src/Database.antt =====
-- The database of visits: mysql/mysql.h, mysql/mysql.cpp and cgi_bin/data_base_show.cpp. The client
-- library mysql/mysql_lib is a parameter.
pub mod Library
pub mod Insert
pub mod Table
pub mod Page
pub mod Trial
pub mod Lifetime
