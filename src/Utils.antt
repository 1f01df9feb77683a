-- ===== src/Utils.antt =====
-- src/shell_utils.c, src/string_builder.c and core/utils/core_string.c: small utilities on texts.
pub mod Shell
pub mod Words
pub mod StringBuilder
pub mod Decimal
pub mod Hex
mod Tests
