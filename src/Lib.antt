-- ===== src/Lib.antt =====
-- The core of the native browser (the C program under src/, with its interfaces under include/tai/).
--
-- A C string is a list of bytes, without the NUL that ends it, and strcmp, strncmp, strchr, strrchr
-- and strstr are functions on such lists (Base/Text.antt, Base/Splits.antt). A struct is a record, a
-- dynamic array is a list, whose length is the struct's `count`, beside its `capacity`. A function that
-- changes an object gives the new object with its result. The names of the C functions are kept; a
-- loop body or a branch that has a name of its own here stands above the function it is part of.
--
-- Whether an allocation or a call of the operating system succeeds is a Boolean argument, so a theorem
-- for all arguments covers every failure; in the parser of style sheets and the cascade none fails,
-- except that utf8proc_map refuses text. `size_t` and `uint64_t` arithmetic wraps at 2 ^ 64 where it can
-- reach that, and a rank of the cascade that is more than an `int` holds is an outcome of its own. What comes from outside the repository is a parameter: the C doubles of the scheduler
-- (`Seconds`), utf8proc (`Utf8proc`, with what is relied on in `IsUtf8proc`), and the clock and
-- curl_getdate (`Dates`). The loading of a page (src/browser.c), which is not modelled, is the interface
-- `Pages` of the session. A function under a mutex is one step.
--
-- Loops over a list are recursion on the list. The others run on fuel: the binary search on the number
-- of strings, which it at least halves every round; the loops over characters and over the parts
-- between separators on the length of the text, of which every round passes a byte; the walks over a
-- document on its greatest depth of 512, or on the number of nodes that are visited, twice that for
-- the markup; and the parser of nested selectors on the 128 levels that the code allows. A loop of the
-- parser of style sheets, or over the words of a class attribute, that is still running when its fuel
-- is gone gives a result of its own, which is not the code's (`unfinished`, `running` and `none`); the two
-- loops that pass characters give the text where they stand.
--
-- The parts, and the files that model them:
--   Scheduler    src/scheduler.c    the task queues of a tab's event loop. Invariant, Histories: what
--                holds after calls. Fifo, Priorities: which task runs. Ordering: the sequence
--                numbers. Generations: the cancellation of a page's tasks.
--   Visited      src/visited.c      the set of visited URLs. SetLaws: membership.
--   Bookmarks    src/bookmarks.c    the bookmarks and their file. Format, Loading: the file. Candidate,
--                Toggling: adding and removing.
--   Urls         the search, insertion and removal that those two share.
--   Utf8         src/url.c          utf8proc, and the stripping of white space.
--   Port, Url    src/url.c          ports, parsing and serialization. Resolve: relative URLs. Output:
--                the JSON text of a URL.
--   Address      src/session.c      the input of the address bar. Encoding: the search query.
--                Searching: the search URL.
--   Session      src/session.c      the history of a tab. Trail: the history as a user sees it. Moves,
--                Requests: the operations on it.
--   Maps         src/core.c         the ordered map. Lookup: its answers.
--   Json         src/core.c         JSON strings. Reading: a reader of them.
--   Cookies      src/network.c      the cookie jar, which uses Maps. Protection: whose cookie is read
--                and changed.
--   Cache        src/network.c      the cache of responses. Bounds: its size. Hits: what is found.
--   Markup       src/tabset.c       the page that lists the bookmarks. Escaping: a reader of it.
--   Editor       src/presentation_address.c   the characters of the address field, and when it gives
--                up what is typed. Characters: counting and offsets.
--   Dom          src/dom.c          the nodes of documents and how scripts move them. Links, Depth: parents
--                and children, and the walks. Moving: insertion and removal. Walks: the text and the
--                ids of a subtree. Contents: setting the text. Serial: the markup of a subtree.
--   Css          src/css.c          selectors and the nodes that they match. Lines, Matching: what they
--                mean. Selecting: their parser. Specificity, PartShapes, Shapes, Progress, Within,
--                Ends: what it gives, and that it ends. Sheets: declarations and rules. Rules:
--                what is added to a sheet. Positions, Recovery, Ends: how far its loops get.
--                Cascade: the style of a node. Ranks, Deciding: which declaration counts. Fits:
--                ranks and `int`.
--                Words: the loops over characters.
--   Tests        each theorem at an input that meets its hypotheses, and runs of the code.
--
-- Selectors are matched on the documents of Dom, whose invariant bounds the walks, and declarations and
-- styles are kept in Maps. A session parses with Url, a URL's text goes into Visited, Bookmarks and
-- the history, and a tab's tasks run through Scheduler.
--
-- Not modelled: the HTML tokenizer and tree builder with the rest of src/dom.c, font sizes in per cent
-- and the JSON output of style sheets (src/css.c), layout, painting and their fonts (src/layout.c,
-- src/render.c), the scripts (src/js.c and the JavaScript engine), pages and tab sets with their loader
-- thread (src/browser.c, the rest of src/tabset.c), transfers by libcurl (the rest of src/network.c),
-- windows and events (src/presentation*.c but the address field), the default
-- path of the bookmarks file, tracing and the start of other programs (src/trace.c, src/external.c,
-- src/main.c). Most of these are input and output or stand on libraries.
pub mod Base
pub mod Address
pub mod Bookmarks
pub mod Cache
pub mod Cookies
pub mod Css
pub mod Dom
pub mod Editor
pub mod Json
pub mod Maps
pub mod Markup
pub mod Port
pub mod Scheduler
pub mod Session
pub mod Url
pub mod Urls
pub mod Utf8
pub mod Visited
pub mod Tests
