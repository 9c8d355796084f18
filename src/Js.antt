-- ===== src/Js.antt =====
-- What the program uses of JavaScript: numbers with their integer tests, and text.
pub mod Number
pub mod Text
