-- ===== src/Queue/Global.antt =====
-- include/queue.h, `GlobalQueue<Task>`: a `std::deque` under a mutex, so each operation is one step.
-- The head of the list is the front.
use tiny_coro_build_your_own.Common.{ℕ, Bool, true, Option, none, some, List, [], ◌∷◌, ◌++◌}
use tiny_coro_build_your_own.Task.{Task, from_address}

abbrev pub GlobalQueue : Type 0
GlobalQueue = List Task

-- The queue afterwards, and the result, which is always `true`.
unfoldable pub push : Task → GlobalQueue → GlobalQueue × Bool
push item queue = (queue ++ item ∷ [], true)

unfoldable pub push_ptr : ℕ → GlobalQueue → GlobalQueue × Bool
unfolding push from_address
push_ptr ptr queue = push (from_address ptr) queue

unfoldable pub pop : GlobalQueue → GlobalQueue × Option Task
pop [] = ([], none)
pop (item ∷ queue) = (queue, some item)
