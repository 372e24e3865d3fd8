-- ===== src/Runner/Log.antt =====
-- What index.js prints: its own messages, and the lines of its children.
use volq_auth.Base.{Bool, not, List, map, select, String, ◌<>◌, is_empty, trim}
use volq_auth.Runner.Env.{split}

-- `colors`
pub data Color : Type 0 where
  reset bright cyan green yellow red magenta dim : Color

abbrev color_code : Color → String
color_code reset = "\u{1b}[0m"
color_code bright = "\u{1b}[1m"
color_code cyan = "\u{1b}[36m"
color_code green = "\u{1b}[32m"
color_code yellow = "\u{1b}[33m"
color_code red = "\u{1b}[31m"
color_code magenta = "\u{1b}[35m"
color_code dim = "\u{1b}[2m"

-- The line that `log` prints, at a time of the clock.
unfoldable pub log : String → Color → String → String → String
log timestamp color tag msg =
    color_code dim
    <> "["
    <> timestamp
    <> "]"
    <> color_code reset
    <> " "
    <> color_code color
    <> color_code bright
    <> "["
    <> tag
    <> "]"
    <> color_code reset
    <> " "
    <> msg

unfoldable log_error : String → String → String → String
unfolding log
log_error timestamp tag msg = log timestamp red tag msg

is_filled : String → Bool
is_filled line = not (is_empty (trim line))

-- `chunk.toString().trim().split('\n')`, less what is blank, and trimmed
unfoldable relay : String → List String
unfolding is_filled
relay chunk = map trim (select is_filled (split b'\n' (trim chunk)))

-- The messages that a chunk of a child's output makes `log` print.
abbrev logged : Color → String → String → String → List String
logged color tag timestamp chunk = map (log timestamp color tag) (relay chunk)

unfoldable backend_output : String → String → List String
backend_output = logged cyan "VOLQ-API"

unfoldable backend_errors : String → String → List String
backend_errors = logged yellow "VOLQ-API"

unfoldable frontend_output : String → String → List String
frontend_output = logged magenta "VOLQ-WEB"

unfoldable frontend_errors : String → String → List String
frontend_errors = logged yellow "VOLQ-WEB"
