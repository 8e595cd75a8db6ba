-- ===== src/Golang.antt =====
-- What the program uses of Go's standard library, as its documentation and source define it.
pub mod Strconv
pub mod Binary
pub mod Base64
pub mod Float64
pub mod Search
pub mod Arith
pub mod ParseFloat
pub mod Sort
