-- ===== src/Lib.antt =====
-- A model of metatensor, a library for storing machine learning data with its metadata: arrays in
-- blocks, the labels that describe their axes, and maps from keys to blocks. The Python package
-- calls a native library written in Rust; both sides are modelled where a call goes through.
--
-- Prelude, Result: lists, signed 32-bit integers, equality; the errors of the code as values. An
--   error keeps the exception class and leaves out the text of the message.
-- Numpy: what is relied on of NumPy (conversion to 32-bit integers, insertion and removal of a
--   column), as an interface with the documented laws. Tests/Inputs has one that meets the laws.
-- Labels: python/metatensor_core/metatensor/labels.py with metatensor-core/src/labels.rs. Core is
--   the record and its constructors, Sets are union, intersection and select, with the mappings
--   that are filled where they are requested, Dimensions are
--   insert, append, permute, remove, rename and the look-ups of entries and columns. A record
--   keeps names, rows and whether the labels are a view; the native library's map from entries to
--   positions is the search for the first equal row, since rows are distinct.
-- Block: python/metatensor_core/metatensor/block.py with metatensor-core/src/blocks.rs. Core is the
--   tree of a block and its gradients, with the constructor and add_gradient; Object is the Python
--   object around a native block, with the pointer that is cleared when the block is moved, the
--   parent, and the caches of element type and device. Arrays of values are an interface.
-- TensorMap: python/metatensor_core/metatensor/tensor.py with metatensor-core/src/tensor/mod.rs. Core
--   is construction and look-up by number, Selection the look-up by labels, entry or dictionary.
-- Operations: python/metatensor_operations/metatensor/operations, the files filter_blocks.py and
--   drop_blocks.py (Blocks, with the rebuilding of a block in Share), and equal_metadata.py with
--   _utils.py (Metadata for blocks, MapMetadata for maps). A message that tells how two blocks or
--   maps differ is kept as a value of a data type; the empty message is `none`. Manipulate
--   and InsertDimension have the operations of manipulate_dimension.py, and Checks the switch of
--   _checks.py, with client code as a tree of statements and `with` blocks.
--   Slice and Split are slice.py and split.py; Indexing is the selection of entries of an array that
--   they rely on, and Masks, Picked, Renumber and FollowedSamples say what a selection keeps.
--   Rebuild is the loop over the gradients of a block with which most operations fill a new block,
--   and Derived the block that it makes where only the arrays are new. RemoveGradients, Storage
--   (detach.py, requires_grad.py, make_contiguous.py, is_contiguous.py, and what they use of
--   _dispatch.py), Filled (zeros_like.py, ones_like.py, empty_like.py) and Arithmetic (add.py,
--   subtract.py, and multiply.py and divide.py by a number) are such operations, and so are Products
--   and ProductMaps (multiply.py and divide.py by a map, pow.py and abs.py); what they ask of arrays
--   is an interface each, that Tests/Grids meets. Equal is equal.py, and Allclose is allclose.py.
--   Dispatch has the functions of _dispatch.py that look at the kind of their arrays.
--   UniqueMetadata is unique_metadata.py, with np.unique as a parameter; Tests/Sorting has one that
--   meets its laws.
--
-- Components use one another as the code does: maps hold labels and blocks, blocks hold labels, the
-- operations call both. Loops are structural recursion on the list that the code walks over, so no
-- fuel is needed. The names of blocks and labels are texts, entries are lists of integers.
--
-- Checks of argument types that Python makes at run time have no place in typed definitions and are
-- left out, but for those on the shape and the kind of an array. Warnings are left out.
--
-- Not modelled: printing and pickling, files, the loading of the native library, the C interface,
-- the merging of blocks (keys_to_samples and keys_to_properties), random_like, the other
-- operations, PyTorch bindings, the learning utilities, and the Rust and Julia interfaces.
pub mod Prelude
pub mod Result
pub mod Numpy
pub mod Labels
pub mod Block
pub mod TensorMap
pub mod Operations
pub mod Tests
