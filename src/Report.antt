-- ===== src/Report.antt =====
-- src/report and src/report/writers.cpp: how results become CSV, HTML and JSON text.
pub mod Html
pub mod Stream
pub mod Automaton
pub mod Names
pub mod Writers
pub mod Summary
pub mod JsonWriter
pub mod HtmlWriter
pub mod Csv
pub mod Json
